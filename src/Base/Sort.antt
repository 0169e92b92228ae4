-- ===== src/Base/Sort.antt =====
-- Go's `sort.Slice`, as insertion: the comparison decides, and elements that it does not tell apart may
-- come in any order.
use mathlib.Core.Path.{◌≡◌, sym, subst}
use mathlib.Core.Bool.{Bool, true, false}
use mathlib.Core.List.{List, [], ◌∷◌, Perm}
use mathlib.Core.List.Perm
use mathlib.Core.Logic.{◌⊎◌, inl, inr}
use redis_replication_contro.Base.Tests.{if◌then◌else◌, Bool-cases}
use redis_replication_contro.Base.Lists.{All}

module _ {A : Type 0} (less : A → A → Bool) where
  unfoldable pub insert_by : A → List A → List A
  insert_by x [] = x ∷ []
  insert_by x (y ∷ ys) = if less y x then y ∷ insert_by x ys else x ∷ y ∷ ys

  unfoldable pub sort_by : List A → List A
  unfolding insert_by
  sort_by [] = []
  sort_by (x ∷ xs) = insert_by x (sort_by xs)

  pub insert_by_cases :
      (x y : A) (ys : List A)
      → ((less y x ≡ true) × (insert_by x (y ∷ ys) ≡ y ∷ insert_by x ys))
        ⊎ ((less y x ≡ false) × (insert_by x (y ∷ ys) ≡ x ∷ y ∷ ys))
  unfolding insert_by
  insert_by_cases x y ys = elim (Bool-cases (less y x)) [
    | inl e ↦ inl (e, rw e)
    | inr e ↦ inr (e, rw e)
  ]

  insert_by-perm : (x : A) (ys : List A) → Perm (insert_by x ys) (x ∷ ys)
  unfolding insert_by
  insert_by-perm x [] = Perm.refl (x ∷ [])
  insert_by-perm x (y ∷ ys) = elim (insert_by_cases x y ys) [
    | inl (_, e) ↦
        subst (λ l. Perm l (x ∷ y ∷ ys)) (sym e)
          (Perm.trans (Perm.cons y (insert_by-perm x ys)) (Perm.swap x y ys))
    | inr (_, e) ↦ subst (λ l. Perm l (x ∷ y ∷ ys)) (sym e) (Perm.refl (x ∷ y ∷ ys))
  ]

  -- Sorting keeps every element, as often as it occurs.
  pub sort_by-perm : (xs : List A) → Perm (sort_by xs) xs
  unfolding sort_by
  sort_by-perm [] = Perm.refl []
  sort_by-perm (x ∷ xs) = Perm.trans (insert_by-perm x (sort_by xs)) (Perm.cons x (sort_by-perm xs))

  -- No element is less than one that stands before it.
  abbrev pub IsSorted : List A → Type 0
  IsSorted [] = Unit
  IsSorted (x ∷ xs) = All (λ y. less y x ≡ false) xs × IsSorted xs

-- On the values of `P` the comparison is a strict weak order.
pub record IsOrder {A : Type 0} (P : A → Type 0) (less : A → A → Bool) : Type 0 where
  pub asym : (x y : A) → P x → P y → less x y ≡ true → less y x ≡ false
  pub trans : (x y z : A) → P x → P y → P z → less y x ≡ false → less z y ≡ false → less z x ≡ false

module _ {A : Type 0} (P : A → Type 0) (less : A → A → Bool) (o : IsOrder P less) where
  insert_by-All :
      (Q : A → Type 0) (x : A) (ys : List A) → Q x → All Q ys → All Q (insert_by less x ys)
  unfolding insert_by
  insert_by-All Q x [] q h = (q, tt)
  insert_by-All Q x (y ∷ ys) q (h, hs) = elim (insert_by_cases less x y ys) [
    | inl (_, e) ↦ subst (All Q) (sym e) (h, insert_by-All Q x ys q hs)
    | inr (_, e) ↦ subst (All Q) (sym e) (q, (h, hs))
  ]

  later :
      (x y : A) (ys : List A)
      → P x
      → P y
      → All P ys
      → less y x ≡ false
      → All (λ z. less z y ≡ false) ys
      → All (λ z. less z x ≡ false) ys
  later x y [] px py _ h _ = tt
  later x y (z ∷ ys) px py (pz, ps) h (k, ks) =
      (o.trans x y z px py pz h k, later x y ys px py ps h ks)

  insert_by-IsSorted :
      (x : A) (ys : List A)
      → P x
      → All P ys
      → IsSorted less ys
      → IsSorted less (insert_by less x ys)
  unfolding insert_by
  insert_by-IsSorted x [] px _ _ = (tt, tt)
  insert_by-IsSorted x (y ∷ ys) px (py, ps) (h, hs) = elim (insert_by_cases less x y ys) [
    | inl (l, e) ↦ subst (IsSorted less) (sym e) (
      insert_by-All (λ z. less z y ≡ false) x ys (o.asym y x py px l) h,
      insert_by-IsSorted x ys px ps hs,
    )
    | inr (l, e) ↦ subst (IsSorted less) (sym e) ((l, later x y ys px py ps l h), (h, hs))
  ]

  pub sort_by-All : (xs : List A) → All P xs → All P (sort_by less xs)
  unfolding sort_by
  sort_by-All [] h = tt
  sort_by-All (x ∷ xs) (h, hs) = insert_by-All P x (sort_by less xs) h (sort_by-All xs hs)

  -- The result is sorted where the comparison is an order.
  pub sort_by-IsSorted : (xs : List A) → All P xs → IsSorted less (sort_by less xs)
  unfolding sort_by
  sort_by-IsSorted [] h = tt
  sort_by-IsSorted (x ∷ xs) (h, hs) =
      insert_by-IsSorted x (sort_by less xs) h (sort_by-All xs hs) (sort_by-IsSorted xs hs)
