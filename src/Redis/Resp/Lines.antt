-- ===== src/Redis/Resp/Lines.antt =====
-- Reading one line: what a line written with CRLF gives back, and how much input a line takes.
use redis_replication_contro.Base.{
  ◌<◌, ◌≡◌, ◌≢◌, refl, ap, some, [], ◌∷◌, ◌++◌, append_assoc, arith, length, All, All-append,
  Option-cases, inl, inr,
}
use redis_replication_contro.Base.Result.{ok}
use redis_replication_contro.Base.Bytes.{Bytes}
use redis_replication_contro.Redis.Resp.{until_newline, strip_cr, read_line}

abbrev pub LacksNewline : Bytes → Type 0
LacksNewline = All (λ c. c ≢ 10)

until_newline-append :
    (line rest : Bytes) → LacksNewline line → until_newline (line ++ 10 ∷ rest) ≡ some (line, rest)
unfolding until_newline
until_newline-append [] rest h = refl
until_newline-append (c ∷ line) rest h = ground (arith, until_newline-append line rest)

strip_cr-append : (line : Bytes) → strip_cr (line ++ 13 ∷ []) ≡ line
unfolding strip_cr
strip_cr-append [] = refl
strip_cr-append (c ∷ []) = refl
strip_cr-append (c ∷ d ∷ line) = ap (λ l. c ∷ l) (strip_cr-append (d ∷ line))

-- A line written with CRLF is read back without it, and nothing behind it is read.
pub read_line-append :
    (line rest : Bytes) → LacksNewline line → read_line (line ++ 13 ∷ 10 ∷ rest) ≡ (ok line, rest)
unfolding read_line
read_line-append line rest h = ground (
  arith,
  append_assoc line (13 ∷ []) (10 ∷ rest),
  until_newline-append (line ++ 13 ∷ []) rest
      (All-append (λ c. c ≢ 10) line (13 ∷ []) h (omega arith)),
  strip_cr-append line,
)

until_newline-shorter :
    (s line rest : Bytes) → until_newline s ≡ some (line, rest) → length rest < length s
unfolding until_newline
until_newline-shorter [] line rest h = cc
until_newline-shorter (c ∷ s) line rest h = elim (Option-cases (until_newline s)) [
  | inl e ↦ ground arith
  | inr ((l, r), e) ↦ ground (arith, until_newline-shorter s l r)
]

-- A line that was read has taken at least its newline.
pub read_line-shorter :
    (s line rest : Bytes) → read_line s ≡ (ok line, rest) → length rest < length s
unfolding read_line
read_line-shorter s line rest h = elim (Option-cases (until_newline s)) [
  | inl e ↦ ground arith
  | inr ((l, r), e) ↦ ground (arith, until_newline-shorter s l r)
]
