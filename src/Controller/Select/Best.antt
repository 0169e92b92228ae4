-- ===== src/Controller/Select/Best.antt =====
-- The loop `best_from` for any test that agrees with a preorder.
use mathlib.Core.Path.{subst}
use redis_replication_contro.Base.{
  ◌≡◌, refl, sym, Bool, true, false, List, [], ◌∷◌, All, In, Bool-cases, inl, inr, ◌⊎◌,
}
use redis_replication_contro.Controller.Select.{PodInfo, best_from}

-- `R b r`: the element `b` is at least as good as `r`.
pub record IsRanking (R : PodInfo → PodInfo → Type 0) (beats : PodInfo → PodInfo → Bool)
    : Type 0 where
  pub reflexive : (r : PodInfo) → R r r
  pub trans : (a b c : PodInfo) → R a b → R b c → R a c
  pub beaten : (r b : PodInfo) → beats r b ≡ true → R r b
  pub kept : (r b : PodInfo) → beats r b ≡ false → R b r

-- `b` stands in the list and is at least as good as every element.
pub record IsBest (R : PodInfo → PodInfo → Type 0) (b : PodInfo) (rs : List PodInfo) : Type 0 where
  pub member : In b rs
  pub best : All (R b) rs

module _ (R : PodInfo → PodInfo → Type 0) (beats : PodInfo → PodInfo → Bool)
    (o : IsRanking R beats) where
  step_cases :
      (b r : PodInfo) (rs : List PodInfo)
      → ((beats r b ≡ true) × (best_from beats b (r ∷ rs) ≡ best_from beats r rs))
        ⊎ ((beats r b ≡ false) × (best_from beats b (r ∷ rs) ≡ best_from beats b rs))
  unfolding best_from
  step_cases b r rs = elim (Bool-cases (beats r b)) [
    | inl e ↦ inl (e, rw e)
    | inr e ↦ inr (e, rw e)
  ]

  -- The loop ends with an element at least as good as its start and as every element that it met.
  Leads : PodInfo → List PodInfo → PodInfo → Type 0
  Leads b rs x = R x b × All (R x) rs

  best_from-Leads : (b : PodInfo) (rs : List PodInfo) → Leads b rs (best_from beats b rs)
  unfolding Leads
  best_from-Leads b [] = unfold best_from in (o.reflexive b, tt)
  best_from-Leads b (r ∷ rs) = elim (step_cases b r rs) [
    | inl (e, same) ↦
        let (start, met) = best_from-Leads r rs in
        subst (Leads b (r ∷ rs)) (sym same)
          (o.trans (best_from beats r rs) r b start (o.beaten r b e), (start, met))
    | inr (e, same) ↦
        let (start, met) = best_from-Leads b rs in
        subst (Leads b (r ∷ rs)) (sym same)
          (start, (o.trans (best_from beats b rs) b r start (o.kept r b e), met))
  ]

  best_from-In : (b : PodInfo) (rs : List PodInfo) → In (best_from beats b rs) (b ∷ rs)
  best_from-In b [] = unfold best_from in inl refl
  best_from-In b (r ∷ rs) = elim (step_cases b r rs) [
    | inl (e, same) ↦ subst (λ x. In x (b ∷ r ∷ rs)) (sym same) (inr (best_from-In r rs))
    | inr (e, same) ↦ subst (λ x. In x (b ∷ r ∷ rs)) (sym same) (past b r rs _ (best_from-In b rs))
  ]
    where
      past : (b r : PodInfo) (rs : List PodInfo) (x : PodInfo) → In x (b ∷ rs) → In x (b ∷ r ∷ rs)
      past b r rs x (inl e) = inl e
      past b r rs x (inr m) = inr (inr m)

  twice : (r : PodInfo) (rs : List PodInfo) (x : PodInfo) → In x (r ∷ r ∷ rs) → In x (r ∷ rs)
  twice r rs x (inl e) = inl e
  twice r rs x (inr m) = m

  -- Started with the head of a list, the loop over the whole list finds a best element.
  pub best_from-IsBest :
      (r : PodInfo) (rs : List PodInfo) → IsBest R (best_from beats r (r ∷ rs)) (r ∷ rs)
  best_from-IsBest r rs = record {
    member = twice r rs (best_from beats r (r ∷ rs)) (best_from-In r (r ∷ rs));
    best = unfold Leads in (best_from-Leads r (r ∷ rs)).1;
  }
