-- ===== src/Redis/Resp/Progress.antt =====
-- A reply takes at least one byte of the input.
use redis_replication_contro.Base.{ℕ, suc, ◌<◌, ◌≡◌, sym, ap, ◌∙◌, inl, inr, arith, length}
use redis_replication_contro.Base.Result.{ok}
use redis_replication_contro.Base.Bytes.{Bytes}
use redis_replication_contro.Redis.Resp.{Reply, read_reply}
use redis_replication_contro.Redis.Resp.Lines.{read_line-shorter}
use redis_replication_contro.Redis.Resp.Fuel.{
  line_cases, read_reply_step, read_reply_eof, read_reply-Runs, reply_of-Runs,
}

pub read_reply-shorter :
    (f : ℕ) (s : Bytes) (r : Reply) (rest : Bytes)
    → length s < suc f
    → read_reply (suc f) s ≡ (ok r, rest)
    → length rest < length s
read_reply-shorter f s r rest h e = elim (line_cases s) [
  | inl x ↦ absurd (cc (read_reply_eof f s x))
  | inr ((line, after), x) ↦
      let shorter = read_line-shorter s line after x in
      let runs =
        reply_of-Runs (length after) (read_reply f) line
          (read_reply-Runs f (length after) (omega arith)) in
      let same = ap (λ p. length p.1) (sym e ∙ read_reply_step f s line after x) in
      omega (arith, runs.rest after (omega arith))
]
