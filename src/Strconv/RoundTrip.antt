-- ===== src/Strconv/RoundTrip.antt =====
-- Printing a 64-bit number and reading it again.
use native.Mathlib.Decide.{dec_lt}
use redis_replication_contro.Base.{
  ℕ, zero, suc, ◌+◌, ◌/◌, ◌%◌, ◌≤◌, ◌<◌, ◌≡◌, ◌≢◌, refl, false, none, some, [], ◌∷◌, ◌++◌,
  append_assoc, arith, All, All-append, append-nil, sym, ◌∙◌, ap,
}
use redis_replication_contro.Base.Int.{ℤ, pos, negsuc, IsInt64}
use redis_replication_contro.Base.Bytes.{Bytes}
use redis_replication_contro.Strconv.{
  max_u64, scan, parse_uint, with_sign, parse_int, atoi, digits, format_nat, format_int,
}

abbrev pub IsDigit : ℕ → Type 0
IsDigit c = (b'0' ≤ c) × (c ≤ b'9')

scan_last : (n : ℕ) (s : Bytes) → n ≤ max_u64 → scan ((b'0' + n % 10) ∷ s) (n / 10) ≡ scan s n
unfolding scan
scan_last n s h = ground arith

scan_small : (n : ℕ) (s : Bytes) → n < 10 → scan ((b'0' + n) ∷ s) 0 ≡ scan s n
unfolding scan
scan_small n s h = ground arith

digits_small : (f n : ℕ) → n < 10 → digits (suc f) n ≡ (b'0' + n) ∷ []
unfolding digits
digits_small f n h = ground arith

digits_large : (f n : ℕ) → 10 ≤ n → digits (suc f) n ≡ digits f (n / 10) ++ (b'0' + n % 10) ∷ []
unfolding digits
digits_large f n h = ground arith

scan-digits : (f n : ℕ) (s : Bytes) → n < f → n ≤ max_u64 → scan (digits f n ++ s) 0 ≡ scan s n
scan-digits zero n s h fits = elim h [ ]
scan-digits (suc f) n s h fits = elim (dec_lt n 10) [
  | yes small ↦ rw (digits_small f n small) (scan_small n s small)
  | no large ↦
      rw (digits_large f n (omega arith), append_assoc)
        (scan-digits f (n / 10) _ (omega arith) (omega arith) ∙ scan_last n s fits)
]

digits-All : (f n : ℕ) → All IsDigit (digits f n)
digits-All zero n = unfold digits in tt
digits-All (suc f) n = elim (dec_lt n 10) [
  | yes small ↦ rw (digits_small f n small) (omega arith)
  | no large ↦
      rw (digits_large f n (omega arith))
        (All-append IsDigit (digits f (n / 10)) _ (digits-All f (n / 10)) (omega arith))
]

append-ne-nil : (s : Bytes) (c : ℕ) → s ++ c ∷ [] ≢ []
append-ne-nil [] c e = cc
append-ne-nil (a ∷ s) c e = cc

digits-ne-nil : (f n : ℕ) → digits (suc f) n ≢ []
unfolding digits
digits-ne-nil f n = ground (arith, append-ne-nil (digits f (n / 10)) (b'0' + n % 10))

-- The print of a number has only digits.
pub format_nat-All : (n : ℕ) → All IsDigit (format_nat n)
unfolding format_nat
format_nat-All n = digits-All (suc n) n

pub format_nat-ne-nil : (n : ℕ) → format_nat n ≢ []
unfolding format_nat
format_nat-ne-nil n = digits-ne-nil n n

scan-format_nat : (n : ℕ) → n ≤ max_u64 → scan (format_nat n) 0 ≡ (n, none)
unfolding format_nat scan
scan-format_nat n fits =
    ap (λ s. scan s 0) (sym (append-nil (digits (suc n) n)))
    ∙ scan-digits (suc n) n [] (omega arith) fits

parse_uint-scan : (s : Bytes) → s ≢ [] → parse_uint s ≡ scan s 0
unfolding parse_uint
parse_uint-scan [] h = absurd (h refl)
parse_uint-scan (c ∷ s) h = refl

-- A text of digits has no sign.
parse_int_unsigned : (s : Bytes) → s ≢ [] → All IsDigit s → parse_int s ≡ with_sign false (scan s 0)
unfolding parse_int parse_uint
parse_int_unsigned [] h d = absurd (h refl)
parse_int_unsigned (c ∷ s) h d = ground arith

-- The print of a 64-bit integer is read back as that integer, without an error.
pub parse_int-format_int : (z : ℤ) → IsInt64 z → parse_int (format_int z) ≡ (z, none)
unfolding format_int with_sign
parse_int-format_int (pos n) fits = ground (
  arith,
  parse_int_unsigned (format_nat n) (format_nat-ne-nil n) (format_nat-All n),
  scan-format_nat n,
)
parse_int-format_int (negsuc n) fits =
    unfold parse_int in
    ground (
      arith,
      parse_uint-scan (format_nat (suc n)) (format_nat-ne-nil (suc n)),
      scan-format_nat (suc n),
    )

pub atoi-format_int : (z : ℤ) → IsInt64 z → atoi (format_int z) ≡ some z
unfolding atoi
atoi-format_int z fits = rw (parse_int-format_int z fits)
