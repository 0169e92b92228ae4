-- ===== src/Redis/Info/Bounds.antt =====
-- The range of the numbers of a parsed INFO reply.
use mathlib.Core.Path.{subst, sym}
use mathlib.Core.Logic.{◌⊎◌}
use mathlib.Core.List.{foldl}
use redis_replication_contro.Base.{
  ◌≡◌, List, [], ◌∷◌, arith, Option-cases, inl, inr, Bool-cases, ◌||◌,
}
use redis_replication_contro.Base.Int.{IsInt64}
use redis_replication_contro.Base.Bytes.{Bytes, split, trim_space, cut, codes, is_empty, has_prefix}
use redis_replication_contro.Strconv.Range.{parse_int-IsInt64}
use redis_replication_contro.Redis.Resp.{str}
use redis_replication_contro.Redis.Info.{
  ReplicationInfo, empty_info, to_int64, set_field, parse_trimmed, parse_line,
  parse_replication_info,
}

pub record InRange (info : ReplicationInfo) : Type 0 where
  pub connected_slaves : IsInt64 info.connected_slaves
  pub master_port : IsInt64 info.master_port
  pub master_repl_offset : IsInt64 info.master_repl_offset
  pub slave_repl_offset : IsInt64 info.slave_repl_offset

to_int64-IsInt64 : (s : Bytes) → IsInt64 (to_int64 (str s))
unfolding to_int64
to_int64-IsInt64 s = parse_int-IsInt64 (trim_space s)

set_field-InRange :
    (info : ReplicationInfo) (key val : Bytes) → InRange info → InRange (set_field info key val)
unfolding set_field
set_field-InRange info key val h = ground (arith, to_int64-IsInt64 val)

-- What one line does: nothing, or one field is set.
pub parse_trimmed_cases :
    (info : ReplicationInfo) (line : Bytes)
    → (parse_trimmed info line ≡ info)
      ⊎ ((kv : Bytes × Bytes) × (parse_trimmed info line ≡ set_field info kv.0 kv.1))
parse_trimmed_cases info line = elim (Bool-cases (is_empty line || has_prefix line (codes "#"))) [
  | inl e ↦ inl (unfold parse_trimmed in rw e)
  | inr e ↦ elim (Option-cases (cut line b':')) [
    | inl c ↦ inl (unfold parse_trimmed in rw (e, c))
    | inr (kv, c) ↦ inr (kv, unfold parse_trimmed in rw (e, c))
  ]
]

parse_line-InRange :
    (info : ReplicationInfo) (line : Bytes) → InRange info → InRange (parse_line info line)
unfolding parse_line
parse_line-InRange info line h = elim (parse_trimmed_cases info (trim_space line)) [
  | inl e ↦ subst InRange (sym e) h
  | inr (kv, e) ↦ subst InRange (sym e) (set_field-InRange info kv.0 kv.1 h)
]

foldl-InRange :
    (lines : List Bytes) (info : ReplicationInfo)
    → InRange info
    → InRange (foldl parse_line info lines)
foldl-InRange [] info h = h
foldl-InRange (l ∷ lines) info h =
    foldl-InRange lines (parse_line info l) (parse_line-InRange info l h)

-- Whatever text a server sends as INFO, every number of the parsed result is in the range of `int64`:
-- a number that does not fit is clamped and one that is no number is 0.
pub parse_replication_info-InRange : (s : Bytes) → InRange (parse_replication_info s)
unfolding parse_replication_info
parse_replication_info-InRange s = foldl-InRange (split s 10) empty_info (ground arith)
