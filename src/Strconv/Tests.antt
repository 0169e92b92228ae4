-- ===== src/Strconv/Tests.antt =====
-- Numbers read from concrete texts.
use redis_replication_contro.Base.{◌≡◌, refl, none, some, arith}
use redis_replication_contro.Base.Int.{pos, negsuc, IsInt64, max_int64, min_int64}
use redis_replication_contro.Base.Bytes.{codes}
use redis_replication_contro.Strconv.{
  syntax, range, scan, parse_uint, with_sign, parse_int, atoi, format_int,
}
use redis_replication_contro.Strconv.RoundTrip.{parse_int-format_int}
use redis_replication_contro.Strconv.Range.{parse_int-IsInt64}

clamped : parse_int (codes "99999999999999999999") ≡ (max_int64, some range)
unfolding parse_int parse_uint scan with_sign
clamped = refl

clamped_early : parse_int (codes "-99999999999999999999x") ≡ (min_int64, some range)
unfolding parse_int parse_uint scan with_sign
clamped_early = refl

no_digits : (parse_int (codes "-") ≡ (pos 0, some syntax)) × (atoi (codes "1_0") ≡ none)
unfolding parse_int parse_uint scan with_sign atoi
no_digits = (refl, refl)

parse_int-format_int_example : parse_int (format_int (negsuc 41)) ≡ (negsuc 41, none)
parse_int-format_int_example = parse_int-format_int (negsuc 41) (omega arith)

parse_int-IsInt64_example : IsInt64 (parse_int (codes "99999999999999999999")).0
parse_int-IsInt64_example = parse_int-IsInt64 (codes "99999999999999999999")
