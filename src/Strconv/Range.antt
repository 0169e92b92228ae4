-- ===== src/Strconv/Range.antt =====
-- What `ParseInt` returns on any text: a 64-bit value, exact where there is no error.
use redis_replication_contro.Base.{ℕ, ◌≡◌, Bool, true, false, Option, none, some, [], ◌∷◌, arith}
use redis_replication_contro.Base.Int.{ℤ, IsInt64}
use redis_replication_contro.Base.Bytes.{Bytes}
use redis_replication_contro.Strconv.{
  NumError, syntax, range, parse_uint, with_sign, parse_int, atoi,
}

with_sign-IsInt64 : (neg : Bool) (r : ℕ × Option NumError) → IsInt64 (with_sign neg r).0
unfolding with_sign
with_sign-IsInt64 true (n, some syntax) = ground arith
with_sign-IsInt64 false (n, some syntax) = ground arith
with_sign-IsInt64 false (n, none) = ground arith
with_sign-IsInt64 false (n, some range) = ground arith
with_sign-IsInt64 true (n, none) = ground arith
with_sign-IsInt64 true (n, some range) = ground arith

-- Whatever the text, the value is a 64-bit integer.
pub parse_int-IsInt64 : (s : Bytes) → IsInt64 (parse_int s).0
unfolding parse_int
parse_int-IsInt64 [] = ground arith
parse_int-IsInt64 (c ∷ s) = ground (
  arith,
  with_sign-IsInt64 false (parse_uint s),
  with_sign-IsInt64 true (parse_uint s),
  with_sign-IsInt64 false (parse_uint (c ∷ s)),
)

pub atoi-IsInt64 : (s : Bytes) (z : ℤ) → atoi s ≡ some z → IsInt64 z
unfolding atoi
atoi-IsInt64 s z h = ground (arith, parse_int-IsInt64 s)
