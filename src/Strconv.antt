-- ===== src/Strconv.antt =====
-- Decimal numbers as Go's `strconv` reads and prints them: `ParseInt(s, 10, 64)`, `Atoi`, `Itoa` and
-- `AppendInt`, on a platform with a 64-bit `int`. The error and the value beside it both matter:
-- `toInt64` of internal/redis/parse.go drops the error and keeps the value.
mod Tests
pub mod RoundTrip
pub mod Range
use redis_replication_contro.Base.{
  ℕ, zero, suc, ◌+◌, ◌-◌, ◌*◌, ◌/◌, ◌%◌, ◌^◌, Bool, true, false, ◌||◌, Option, none, some, List, [],
  ◌∷◌, ◌++◌, ltb, leb, ◌==◌, if◌then◌else◌,
}
use redis_replication_contro.Base.Int.{ℤ, pos, negsuc, max_int64, min_int64, two63}
use redis_replication_contro.Base.Bytes.{Bytes}

pub data NumError : Type 0 where
  syntax range : NumError

abbrev pub max_u64 : ℕ
max_u64 = 2 ^ 64 - 1

-- The loop of `ParseUint` in base 10: it stops at the first byte that is no digit, or at the first
-- digit that takes the number past 64 bits.
unfoldable pub scan : Bytes → ℕ → ℕ × Option NumError
scan [] n = (n, none)
scan (c ∷ s) n =
    let next = scan s (n * 10 + (c - b'0')) in
    if ltb c b'0' || ltb b'9' c
    then (0, some syntax)
    else if ltb max_u64 (n * 10 + (c - b'0'))
    then (max_u64, some range)
    else next

unfoldable pub parse_uint : Bytes → ℕ × Option NumError
parse_uint [] = (0, some syntax)
parse_uint (c ∷ s) = scan (c ∷ s) 0

abbrev pub negate : ℕ → ℤ
negate zero = pos 0
negate (suc n) = negsuc n

-- The end of `ParseInt`: a magnitude that does not fit is replaced by the nearest bound.
unfoldable pub with_sign : Bool → ℕ × Option NumError → ℤ × Option NumError
with_sign neg (un, some syntax) = (pos 0, some syntax)
with_sign false (un, e) = if leb two63 un then (max_int64, some range) else (pos un, none)
with_sign true (un, e) = if ltb two63 un then (min_int64, some range) else (negate un, none)

unfoldable pub parse_int : Bytes → ℤ × Option NumError
parse_int [] = (pos 0, some syntax)
parse_int (c ∷ s) =
    if c == b'+'
    then with_sign false (parse_uint s)
    else if c == b'-'
    then with_sign true (parse_uint s)
    else with_sign false (parse_uint (c ∷ s))

abbrev pub if_no_error : ℤ × Option NumError → Option ℤ
if_no_error (n, none) = some n
if_no_error (n, some e) = none

-- strconv.Atoi; every caller drops the value when there is an error.
unfoldable pub atoi : Bytes → Option ℤ
atoi s = if_no_error (parse_int s)

-- The digits of `n`, with fuel above `n`.
digits : ℕ → ℕ → Bytes
digits zero n = []
digits (suc f) n = elim (ltb n 10) [
  | true ↦ (b'0' + n) ∷ []
  | false ↦ digits f (n / 10) ++ (b'0' + n % 10) ∷ []
]

unfoldable pub format_nat : ℕ → Bytes
unfolding digits
format_nat n = digits (suc n) n

-- strconv.Itoa and strconv.AppendInt
unfoldable pub format_int : ℤ → Bytes
format_int (pos n) = format_nat n
format_int (negsuc n) = b'-' ∷ format_nat (suc n)
