-- ===== src/Kube/Pods/Ordinal.antt =====
-- `ordinalFromName` on names that end in an ordinal, and the range of its results.
use mathlib.Core.Path.{subst}
use redis_replication_contro.Base.{
  ℕ, ◌<◌, ◌≡◌, ◌≢◌, refl, ap, ◌∙◌, false, Option, none, some, [], ◌∷◌, ◌++◌, arith, All,
  Option-cases, inl, inr,
}
use redis_replication_contro.Base.Int.{ℤ, pos, two63, ◌≤ℤ◌}
use redis_replication_contro.Base.Bytes.{Bytes, after_last, is_empty}
use redis_replication_contro.Base.Bytes.Split.{Lacks}
use redis_replication_contro.Strconv.{
  NumError, syntax, range, parse_uint, with_sign, parse_int, if_no_error, atoi, format_nat,
  format_int,
}
use redis_replication_contro.Strconv.RoundTrip.{
  IsDigit, format_nat-All, format_nat-ne-nil, atoi-format_int,
}
use redis_replication_contro.Kube.Pods.{ordinal_of, ordinal_from_name}
use redis_replication_contro.Kube.Pods.Order.{IsOrdinal}

after_last-none : (s : Bytes) (sep : ℕ) → Lacks sep s → after_last s sep ≡ none
unfolding after_last
after_last-none [] sep h = refl
after_last-none (c ∷ s) sep (h, hs) = ground (arith, after_last-none s sep hs)

after_last-append :
    (base rest : Bytes) (sep : ℕ) → Lacks sep rest → after_last (base ++ sep ∷ rest) sep ≡ some rest
unfolding after_last
after_last-append [] rest sep h = ground (arith, after_last-none rest sep h)
after_last-append (c ∷ base) rest sep h = ground (arith, after_last-append base rest sep h)

digits-Lacks : (s : Bytes) → All IsDigit s → Lacks b'-' s
digits-Lacks [] h = tt
digits-Lacks (c ∷ s) (h, hs) = (ground arith, digits-Lacks s hs)

is_empty-false : (s : Bytes) → s ≢ [] → is_empty s ≡ false
is_empty-false [] h = absurd (h refl)
is_empty-false (a ∷ s) h = refl

ordinal_of_suffix :
    (name suffix : Bytes)
    → after_last name b'-' ≡ some suffix
    → suffix ≢ []
    → ordinal_from_name name ≡ ordinal_of (atoi suffix)
unfolding ordinal_from_name
ordinal_of_suffix name suffix e h = ground (arith, is_empty-false suffix h)

-- A StatefulSet pod `<base>-<n>` has ordinal `n`, whatever the base, if `n` is a 64-bit number.
pub ordinal_from_name-append :
    (base : Bytes) (n : ℕ) → n < two63 → ordinal_from_name (base ++ b'-' ∷ format_nat n) ≡ pos n
ordinal_from_name-append base n h =
    ordinal_of_suffix (base ++ b'-' ∷ format_nat n) (format_nat n)
      (after_last-append base (format_nat n) b'-' (digits-Lacks (format_nat n) (format_nat-All n)))
      (format_nat-ne-nil n)
    ∙ (unfold format_int ordinal_of in ap ordinal_of (atoi-format_int (pos n) (omega arith)))

Lacks-none : (s : Bytes) (sep : ℕ) → after_last s sep ≡ none → Lacks sep s
unfolding after_last
Lacks-none [] sep h = tt
Lacks-none (c ∷ s) sep h = elim (Option-cases (after_last s sep)) [
  | inl e ↦ (ground arith, Lacks-none s sep e)
  | inr (r, e) ↦ absurd (ground arith)
]

after_last-Lacks : (s r : Bytes) (sep : ℕ) → after_last s sep ≡ some r → Lacks sep r
unfolding after_last
after_last-Lacks [] r sep h = absurd (cc)
after_last-Lacks (c ∷ s) r sep h = elim (Option-cases (after_last s sep)) [
  | inl e ↦ subst (Lacks sep) (ground arith) (Lacks-none s sep e)
  | inr (t, e) ↦ subst (Lacks sep) (ground arith) (after_last-Lacks s t sep e)
]

with_sign_nonneg :
    (r : ℕ × Option NumError) (n : ℤ) → if_no_error (with_sign false r) ≡ some n → pos 0 ≤ℤ n
unfolding with_sign
with_sign_nonneg (m, none) n h = ground arith
with_sign_nonneg (m, some syntax) n h = ground arith
with_sign_nonneg (m, some range) n h = ground arith

-- Without a minus sign a number is not negative.
atoi_nonneg : (s : Bytes) (n : ℤ) → Lacks b'-' s → atoi s ≡ some n → pos 0 ≤ℤ n
unfolding atoi parse_int
atoi_nonneg [] n l h = absurd (cc)
atoi_nonneg (c ∷ s) n (lc, ls) h =
    ground (arith, with_sign_nonneg (parse_uint s) n, with_sign_nonneg (parse_uint (c ∷ s)) n)

ordinal_of-IsOrdinal : (s : Bytes) → Lacks b'-' s → IsOrdinal (ordinal_of (atoi s))
unfolding ordinal_of
ordinal_of-IsOrdinal s h = elim (Option-cases (atoi s)) [
  | inl e ↦ rw e (omega arith)
  | inr (n, e) ↦ rw e (omega (arith, atoi_nonneg s n h e))
]

-- The ordinal of any name is -1 or a natural number.
pub ordinal_from_name-IsOrdinal : (name : Bytes) → IsOrdinal (ordinal_from_name name)
unfolding ordinal_from_name
ordinal_from_name-IsOrdinal name = elim (Option-cases (after_last name b'-')) [
  | inl e ↦ rw (e, ordinal_from_name) (omega arith)
  | inr (r, e) ↦ ground (arith, ordinal_of-IsOrdinal r (after_last-Lacks name r b'-' e))
]
