-- ===== src/Controller/Select/Bootstrap.antt =====
-- Which standalone pod becomes the initial master.
use mathlib.Core.Path.{subst}
use redis_replication_contro.Base.{
  ◌≡◌, refl, sym, ap, ◌∙◌, ◌⊎◌, inl, inr, Bool, true, false, Option, none, some, List, [], ◌∷◌,
  arith, All, In, Bool-cases,
}
use redis_replication_contro.Base.Int.{pos, ◌≤ℤ◌}
use redis_replication_contro.Base.Bytes.{Bytes, bytes_eq}
use redis_replication_contro.Config.{
  strategy_annotation_preferred, strategy_lowest_pod_ordinal, strategy_first_healthy,
}
use redis_replication_contro.Controller.Select.Best.{IsRanking, IsBest, best_from-IsBest}
use redis_replication_contro.Controller.Select.{
  PodInfo, offset_of, best_from, find_first, prefers, lower_ordinal, higher_offset, or_first,
  select_bootstrap_candidate,
}

-- A known ordinal of `r` is not below that of `b`, which is then known too.
abbrev pub NotAbove : PodInfo → PodInfo → Type 0
NotAbove b r = pos 0 ≤ℤ r.pod.ordinal → (pos 0 ≤ℤ b.pod.ordinal) × (b.pod.ordinal ≤ℤ r.pod.ordinal)

NotAbove-trans : (a b c : PodInfo) → NotAbove a b → NotAbove b c → NotAbove a c
NotAbove-trans a b c h k x = let p = k x in let q = h p.0 in (q.0, omega arith)

lower_yes : (r b : PodInfo) → lower_ordinal r b ≡ true → NotAbove r b
unfolding lower_ordinal
lower_yes r b h = ground arith

lower_no : (r b : PodInfo) → lower_ordinal r b ≡ false → NotAbove b r
unfolding lower_ordinal
lower_no r b h = ground arith

lower_ordinal-IsRanking : IsRanking NotAbove lower_ordinal
lower_ordinal-IsRanking = record {
  reflexive = λ r x. (x, omega arith);
  trans = NotAbove-trans;
  beaten = lower_yes;
  kept = lower_no;
}

abbrev pub NotBehind : PodInfo → PodInfo → Type 0
NotBehind b r = offset_of r ≤ℤ offset_of b

higher_yes : (r b : PodInfo) → higher_offset r b ≡ true → NotBehind r b
unfolding higher_offset
higher_yes r b h = ground arith

higher_no : (r b : PodInfo) → higher_offset r b ≡ false → NotBehind b r
unfolding higher_offset
higher_no r b h = ground arith

higher_offset-IsRanking : IsRanking NotBehind higher_offset
higher_offset-IsRanking = record {
  reflexive = λ r. omega arith;
  trans = λ a b c h k. omega arith;
  beaten = higher_yes;
  kept = higher_no;
}

find_first_step :
    (test : PodInfo → Bool) (r : PodInfo) (rs : List PodInfo)
    → ((test r ≡ true) × (find_first test (r ∷ rs) ≡ some r))
      ⊎ ((test r ≡ false) × (find_first test (r ∷ rs) ≡ find_first test rs))
unfolding find_first
find_first_step test r rs = elim (Bool-cases (test r)) [
  | inl e ↦ inl (e, rw e)
  | inr e ↦ inr (e, rw e)
]

-- A search ends at an element that passes, or nothing passes.
find_first_cases :
    (test : PodInfo → Bool) (rs : List PodInfo)
    → ((b : PodInfo) × (find_first test rs ≡ some b) × In b rs × (test b ≡ true))
      ⊎ ((find_first test rs ≡ none) × All (λ r. test r ≡ false) rs)
find_first_cases test [] = inr (unfold find_first in refl, tt)
find_first_cases test (r ∷ rs) = elim (find_first_step test r rs) [
  | inl (e, found) ↦ inl (r, found, inl refl, e)
  | inr (e, on) ↦ elim (find_first_cases test rs) [
    | inl (b, found, m, p) ↦ inl (b, on ∙ found, inr m, p)
    | inr (missed, h) ↦ inr (on ∙ missed, (e, h))
  ]
]

-- With the strategy lowest-pod-ordinal the choice is a member of the list, and its ordinal is known and
-- lowest if any ordinal is known.
pub bootstrap_lowest :
    (r : PodInfo) (rs : List PodInfo)
    → (b : PodInfo) × (select_bootstrap_candidate strategy_lowest_pod_ordinal (r ∷ rs) ≡ some b)
      × IsBest NotAbove b (r ∷ rs)
unfolding select_bootstrap_candidate bytes_eq
bootstrap_lowest r rs = (
  best_from lower_ordinal r (r ∷ rs),
  refl,
  best_from-IsBest NotAbove lower_ordinal lower_ordinal-IsRanking r rs,
)

preferred_or_first :
    (r : PodInfo) (rs : List PodInfo) (o : Option PodInfo)
    → find_first prefers (r ∷ rs) ≡ o
    → select_bootstrap_candidate strategy_annotation_preferred (r ∷ rs) ≡ some (or_first r o)
unfolding select_bootstrap_candidate bytes_eq
preferred_or_first r rs o e = ap (λ o. some (or_first r o)) e

-- With the strategy annotation-preferred the choice is a member of the list that carries the annotation;
-- if no member carries it, the choice is the first one.
pub bootstrap_preferred :
    (r : PodInfo) (rs : List PodInfo)
    → (b : PodInfo) × (select_bootstrap_candidate strategy_annotation_preferred (r ∷ rs) ≡ some b)
      × In b (r ∷ rs)
      × ((prefers b ≡ true) ⊎ ((b ≡ r) × All (λ x. prefers x ≡ false) (r ∷ rs)))
bootstrap_preferred r rs = elim (find_first_cases prefers (r ∷ rs)) [
  | inl (b, found, m, p) ↦
      (b, preferred_or_first r rs (some b) found ∙ (unfold or_first in refl), m, inl p)
  | inr (missed, h) ↦
      (r, preferred_or_first r rs none missed ∙ (unfold or_first in refl), inl refl, inr (refl, h))
]

or_first-In :
    (r : PodInfo) (rs : List PodInfo) → In (or_first r (find_first prefers (r ∷ rs))) (r ∷ rs)
or_first-In r rs = elim (find_first_cases prefers (r ∷ rs)) [
  | inl (b, found, m, p) ↦
      subst (λ o. In (or_first r o) (r ∷ rs)) (sym found) (unfold or_first in m)
  | inr (missed, h) ↦
      subst (λ o. In (or_first r o) (r ∷ rs)) (sym missed) (unfold or_first in inl refl)
]

-- Whatever the strategy, the choice from a list that is not empty is a member of it.
pub bootstrap-In :
    (strategy : Bytes) (r : PodInfo) (rs : List PodInfo)
    → (b : PodInfo) × (select_bootstrap_candidate strategy (r ∷ rs) ≡ some b) × In b (r ∷ rs)
unfolding select_bootstrap_candidate
bootstrap-In strategy r rs = elim (Bool-cases (bytes_eq strategy strategy_annotation_preferred)) [
  | inl e ↦ (or_first r (find_first prefers (r ∷ rs)), rw e, or_first-In r rs)
  | inr e ↦ elim (Bool-cases (bytes_eq strategy strategy_lowest_pod_ordinal)) [
    | inl f ↦ (
      best_from lower_ordinal r (r ∷ rs),
      rw (e, f),
      (best_from-IsBest NotAbove lower_ordinal lower_ordinal-IsRanking r rs).member,
    )
    | inr f ↦ elim (Bool-cases (bytes_eq strategy strategy_first_healthy)) [
      | inl g ↦ (r, rw (e, f, g), inl refl)
      | inr g ↦ (
        best_from higher_offset r (r ∷ rs),
        rw (e, f, g),
        (best_from-IsBest NotBehind higher_offset higher_offset-IsRanking r rs).member,
      )
    ]
  ]
]
