-- ===== src/Base/Lists.antt =====
-- Lists measured and indexed by native numbers, under the library's names; the predicates `All`
-- and `In` by recursion, which the tactics read.
use Prim.Native.Nat.{ℕ, zero, suc, ◌+◌, ◌-◌}
use mathlib.Core.Path.{◌≡◌, refl, ap, sym, subst, ◌∙◌}
use mathlib.Core.Logic.{◌⊎◌, inl, inr}
use mathlib.Core.Bool.{Bool, true, false}
use mathlib.Core.List.{List, [], ◌∷◌, ◌++◌, map}
use native.Mathlib.Omega.{arith}
use redis_replication_contro.Base.Tests.{if◌then◌else◌, Bool-cases}

module _ {ℓ} {A : Type ℓ} where
  abbrev pub length : List A → ℕ
  length [] = 0
  length (x ∷ xs) = suc (length xs)

  abbrev pub take : ℕ → List A → List A
  take zero xs = []
  take (suc n) [] = []
  take (suc n) (x ∷ xs) = x ∷ take n xs

  abbrev pub drop : ℕ → List A → List A
  drop zero xs = xs
  drop (suc n) [] = []
  drop (suc n) (x ∷ xs) = drop n xs

  -- The elements that pass a test, in their order.
  abbrev pub keep_if : (A → Bool) → List A → List A
  keep_if p [] = []
  keep_if p (x ∷ xs) = if p x then x ∷ keep_if p xs else keep_if p xs

  pub length-append : (xs ys : List A) → length (xs ++ ys) ≡ length xs + length ys
  length-append [] ys = omega arith
  length-append (x ∷ xs) ys = omega (arith, length-append xs ys)

  pub length-drop : (n : ℕ) (xs : List A) → length (drop n xs) ≡ length xs - n
  length-drop zero xs = omega arith
  length-drop (suc n) [] = omega arith
  length-drop (suc n) (x ∷ xs) = omega (arith, length-drop n xs)

  pub take-append_self : (xs ys : List A) → take (length xs) (xs ++ ys) ≡ xs
  take-append_self [] ys = refl
  take-append_self (x ∷ xs) ys = ap (λ l. x ∷ l) (take-append_self xs ys)

  pub drop-append_self : (xs ys : List A) → drop (length xs) (xs ++ ys) ≡ ys
  drop-append_self [] ys = refl
  drop-append_self (x ∷ xs) ys = drop-append_self xs ys

module _ {ℓ κ} {A : Type ℓ} (P : A → Type κ) where
  abbrev pub All : List A → Type κ
  All [] = Unit
  All (x ∷ xs) = P x × All xs

  pub All-append : (xs ys : List A) → All xs → All ys → All (xs ++ ys)
  All-append [] ys _ hy = hy
  All-append (x ∷ xs) ys (px, hx) hy = (px, All-append xs ys hx hy)

-- `x` stands in the list; a sum over the places where it does.
abbrev pub In : {A : Type 0} → A → List A → Type 0
In a [] = ⊥
In a (x ∷ xs) = (a ≡ x) ⊎ In a xs

module _ {A : Type 0} where
  pub All-of_In : (P : A → Type 0) (xs : List A) → ((a : A) → In a xs → P a) → All P xs
  All-of_In P [] h = tt
  All-of_In P (x ∷ xs) h = (h x (inl refl), All-of_In P xs (λ a m. h a (inr m)))

  pub All-In : (P : A → Type 0) (xs : List A) (a : A) → All P xs → In a xs → P a
  All-In P [] a h m = absurd m
  All-In P (x ∷ xs) a (px, hx) (inl e) = subst P (sym e) px
  All-In P (x ∷ xs) a (px, hx) (inr m) = All-In P xs a hx m

  pub In-append_left : (xs ys : List A) (a : A) → In a xs → In a (xs ++ ys)
  In-append_left [] ys a m = absurd m
  In-append_left (x ∷ xs) ys a (inl e) = inl e
  In-append_left (x ∷ xs) ys a (inr m) = inr (In-append_left xs ys a m)

  pub In-append_right : (xs ys : List A) (a : A) → In a ys → In a (xs ++ ys)
  In-append_right [] ys a m = m
  In-append_right (x ∷ xs) ys a m = inr (In-append_right xs ys a m)

keep_if_step {ℓ} :
    {A : Type ℓ} (p : A → Bool) (x : A) (xs : List A)
    → ((p x ≡ true) × (keep_if p (x ∷ xs) ≡ x ∷ keep_if p xs))
      ⊎ ((p x ≡ false) × (keep_if p (x ∷ xs) ≡ keep_if p xs))
keep_if_step p x xs = elim (Bool-cases (p x)) [
  | inl e ↦ inl (e, rw (e, keep_if))
  | inr e ↦ inr (e, rw (e, keep_if))
]

module _ {A : Type 0} (p : A → Bool) where
  pub keep_if-In : (xs : List A) (a : A) → In a (keep_if p xs) → In a xs × (p a ≡ true)
  keep_if-In [] a m = absurd m
  keep_if-In (x ∷ xs) a m = elim (keep_if_step p x xs) [
    | inl (e, same) ↦ here (subst (In a) same m) e (keep_if-In xs a)
    | inr (e, same) ↦ let (n, q) = keep_if-In xs a (subst (In a) same m) in (inr n, q)
  ]
    where
      here :
          In a (x ∷ keep_if p xs)
          → p x ≡ true
          → (In a (keep_if p xs) → In a xs × (p a ≡ true))
          → In a (x ∷ xs) × (p a ≡ true)
      here (inl s) e ih = (inl s, subst (λ y. p y ≡ true) (sym s) e)
      here (inr n) e ih = (inr (ih n).0, (ih n).1)

  pub In-keep_if : (xs : List A) (a : A) → In a xs → p a ≡ true → In a (keep_if p xs)
  In-keep_if [] a m e = absurd m
  In-keep_if (x ∷ xs) a (inl s) e = elim (keep_if_step p x xs) [
    | inl (h, same) ↦ subst (In a) (sym same) (inl s)
    | inr (h, same) ↦ absurd (cc (h, e, s))
  ]
  In-keep_if (x ∷ xs) a (inr n) e = elim (keep_if_step p x xs) [
    | inl (h, same) ↦ subst (In a) (sym same) (inr (In-keep_if xs a n e))
    | inr (h, same) ↦ subst (In a) (sym same) (In-keep_if xs a n e)
  ]

  -- What holds of the kept elements holds of every element that passes.
  pub keep_if-All :
      (P : A → Type 0) (xs : List A) → All P (keep_if p xs) → All (λ x. p x ≡ true → P x) xs
  keep_if-All P [] h = tt
  keep_if-All P (x ∷ xs) h = elim (keep_if_step p x xs) [
    | inl (e, same) ↦ let (px, ps) = subst (All P) same h in (λ _. px, keep_if-All P xs ps)
    | inr (e, same) ↦ (λ t. absurd (cc (t, e)), keep_if-All P xs (subst (All P) same h))
  ]

  pub keep_if-none : (xs : List A) → All (λ x. p x ≡ false) xs → keep_if p xs ≡ []
  keep_if-none [] h = refl
  keep_if-none (x ∷ xs) (h, hs) = elim (keep_if_step p x xs) [
    | inl (e, same) ↦ absurd (cc (e, h))
    | inr (e, same) ↦ same ∙ keep_if-none xs hs
  ]

  pub keep_if-nil : (xs : List A) → keep_if p xs ≡ [] → All (λ x. p x ≡ false) xs
  keep_if-nil [] h = tt
  keep_if-nil (x ∷ xs) h = elim (keep_if_step p x xs) [
    | inl (e, same) ↦ absurd (cc (same, h))
    | inr (e, same) ↦ (e, keep_if-nil xs (sym same ∙ h))
  ]

module _ {A B : Type 0} (f : A → B) where
  pub In-map : (xs : List A) (a : A) → In a xs → In (f a) (map f xs)
  In-map [] a m = m
  In-map (x ∷ xs) a (inl e) = inl (ap f e)
  In-map (x ∷ xs) a (inr m) = inr (In-map xs a m)

  pub map-In : (xs : List A) (b : B) → In b (map f xs) → (a : A) × In a xs × (f a ≡ b)
  map-In [] b m = absurd m
  map-In (x ∷ xs) b (inl e) = (x, inl refl, sym e)
  map-In (x ∷ xs) b (inr m) = let (a, n, e) = map-In xs b m in (a, inr n, e)
