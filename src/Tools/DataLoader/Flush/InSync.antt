-- ===== src/Tools/DataLoader/Flush/InSync.antt =====
-- A flush whose commands the server answers one by one.
use redis_replication_contro.Base.{
  ℕ, suc, ◌+◌, ◌<◌, ◌≡◌, refl, ap, ap₂, append-nil, ◌∙◌, Bool, true, some, List, [], ◌∷◌, ◌++◌,
  append_assoc, arith, length, All,
}
use redis_replication_contro.Base.Result.{ok, err}
use redis_replication_contro.Base.Bytes.{Bytes, codes, bytes_eq}
use redis_replication_contro.Redis.Resp.{str, redis_error, crlf, reply_of, write_bulk, write_bulks}
use redis_replication_contro.Strconv.{format_nat}
use redis_replication_contro.Redis.Resp.Lines.{LacksNewline, read_line-append}
use redis_replication_contro.Redis.Resp.Fuel.{read_reply_step}
use redis_replication_contro.Tools.FailoverProbe.Client
use redis_replication_contro.Tools.DataLoader.Client.{Pipe, read_reply, write_cmd}
use redis_replication_contro.Tools.DataLoader.Flush.{
  Batch, Tally, Loader, flushed, count_err, count_ok, size, count_reply, on_reply, drain, takes_all,
  commands, after_drain, read_replies, flush_to, flush_on, flush,
}

-- A server's answer to a SET: it stored the pair, or says why not.
pub data Answer : Type 0 where
  stored : Answer
  rejected : Bytes → Answer

abbrev line_of : Answer → Bytes
line_of stored = codes "+OK"
line_of (rejected msg) = b'-' ∷ msg

abbrev IsLine : Answer → Type 0
IsLine stored = Unit
IsLine (rejected msg) = LacksNewline msg

abbrev pub respond : List Answer → Bytes
respond [] = []
respond (a ∷ answers) = line_of a ++ (crlf ++ respond answers)

-- What the answers say of the pairs of a batch.
abbrev stored_pairs : Batch → List Answer → Batch
stored_pairs [] answers = []
stored_pairs (pair ∷ batch) [] = []
stored_pairs (pair ∷ batch) (stored ∷ answers) = pair ∷ stored_pairs batch answers
stored_pairs (pair ∷ batch) (rejected msg ∷ answers) = stored_pairs batch answers

abbrev rejections : List Answer → ℕ
rejections [] = 0
rejections (stored ∷ answers) = rejections answers
rejections (rejected msg ∷ answers) = suc (rejections answers)

abbrev total_size : Batch → ℕ
total_size [] = 0
total_size (pair ∷ batch) = size pair + total_size batch

abbrev tally_after : Batch → List Answer → Tally → Tally
tally_after batch answers t =
    let kept = stored_pairs batch answers in
    record {
      written = t.written + total_size kept;
      keys = t.keys + length kept;
      errs = t.errs + rejections answers;
    }

read_stored :
    (f : ℕ) (rest : Bytes)
    → read_reply (suc f) (codes "+OK" ++ (crlf ++ rest)) ≡ (ok (str (codes "OK")), rest)
unfolding read_reply Client.read_reply reply_of
read_stored f rest =
    read_reply_step f _ (codes "+OK") rest (read_line-append (codes "+OK") rest (omega arith))

read_rejected :
    (f : ℕ) (msg rest : Bytes)
    → LacksNewline msg
    → read_reply (suc f) (b'-' ∷ msg ++ (crlf ++ rest)) ≡ (err (redis_error msg), rest)
unfolding read_reply Client.read_reply reply_of
read_rejected f msg rest h =
    read_reply_step f _ (b'-' ∷ msg) rest (read_line-append (b'-' ∷ msg) rest (omega arith, h))

drain_stored :
    (pair : Bytes × Bytes) (batch : Batch) (rest : Bytes) (t : Tally)
    → drain (pair ∷ batch) (codes "+OK" ++ (crlf ++ rest)) t ≡ drain batch rest (count_ok pair t)
unfolding drain on_reply count_reply bytes_eq
drain_stored pair batch rest t = ap (on_reply (drain batch) pair t) (read_stored _ rest)

drain_rejected :
    (pair : Bytes × Bytes) (batch : Batch) (msg rest : Bytes) (t : Tally)
    → LacksNewline msg
    → drain (pair ∷ batch) (b'-' ∷ msg ++ (crlf ++ rest)) t ≡ drain batch rest (count_err t)
unfolding drain on_reply
drain_rejected pair batch msg rest t h =
    ap (on_reply (drain batch) pair t) (read_rejected _ msg rest h)

tally_eq : (t t' : Tally) → t.written ≡ t'.written → t.keys ≡ t'.keys → t.errs ≡ t'.errs → t ≡ t'
tally_eq t t' w k e = cc

respond-append :
    (a : Answer) (answers : List Answer) (rest : Bytes)
    → respond (a ∷ answers) ++ rest ≡ line_of a ++ (crlf ++ (respond answers ++ rest))
respond-append a answers rest = append_assoc (line_of a) (crlf ++ respond answers) rest

drain-respond :
    (batch : Batch) (answers : List Answer) (rest : Bytes) (t : Tally)
    → length answers ≡ length batch
    → All IsLine answers
    → drain batch (respond answers ++ rest) t ≡ (tally_after batch answers t, rest, flushed)
unfolding drain
drain-respond [] [] rest t same h =
    ap (λ u. (u, rest, flushed)) (tally_eq t _ (omega arith) (omega arith) (omega arith))
drain-respond [] (a ∷ answers) rest t same h = absurd (omega arith)
drain-respond (pair ∷ batch) [] rest t same h = absurd (omega arith)
drain-respond (pair ∷ batch) (stored ∷ answers) rest t same (h, hs) =
    ap (λ s. drain (pair ∷ batch) s t) (respond-append stored answers rest)
    ∙ drain_stored pair batch (respond answers ++ rest) t
    ∙ drain-respond batch answers rest (count_ok pair t) (omega arith) hs
    ∙ ap (λ u. (u, rest, flushed)) (tally_eq _ _ (omega arith) (omega arith) (omega arith))
drain-respond (pair ∷ batch) (rejected msg ∷ answers) rest t same (h, hs) =
    ap (λ s. drain (pair ∷ batch) s t) (respond-append (rejected msg) answers rest)
    ∙ drain_rejected pair batch msg (respond answers ++ rest) t h
    ∙ drain-respond batch answers rest (count_err t) (omega arith) hs
    ∙ ap (λ u. (u, rest, flushed)) (tally_eq _ _ (omega arith) (omega arith) (omega arith))

-- The RESP text of the command `SET key value`.
abbrev pub argument : Bytes → Bytes
argument a = b'$' ∷ format_nat (length a) ++ (crlf ++ (a ++ crlf))

abbrev pub set_text : Bytes × Bytes → Bytes
set_text (key, value) =
    codes "*3"
    ++ (crlf
        ++ (codes "$3" ++ (crlf ++ (codes "SET" ++ (crlf ++ (argument key ++ argument value))))))

abbrev pub set_texts : Batch → Bytes
set_texts [] = []
set_texts (pair ∷ batch) = set_text pair ++ set_texts batch

write_cmd-set_text :
    (key value : Bytes) → write_cmd (codes "SET" ∷ key ∷ value ∷ []) ≡ set_text (key, value)
unfolding write_cmd Client.write_cmd write_bulks write_bulk format_nat
write_cmd-set_text key value =
    ap
      (λ l.
        codes "*3"
        ++ (crlf ++ (codes "$3" ++ (crlf ++ (codes "SET" ++ (crlf ++ (argument key ++ l)))))))
      (append-nil (argument value))

commands-set_texts : (batch : Batch) → commands batch ≡ set_texts batch
unfolding commands
commands-set_texts [] = refl
commands-set_texts ((key, value) ∷ batch) =
    ap₂ (λ x y. x ++ y) (write_cmd-set_text key value) (commands-set_texts batch)

-- The connection takes the deadlines and the bytes of this batch.
pub record Takes (p : Pipe) (batch : Batch) : Type 0 where
  pub write_deadline : p.takes_write_deadline p.line.sent ≡ true
  pub all : (i : ℕ) → p.takes_command p.line.sent i ≡ true
  pub flush : p.takes_flush p.line.sent ≡ true
  pub read_deadline : p.takes_read_deadline (p.line.sent ++ set_texts batch) ≡ true

takes_all-true :
    (takes : ℕ → Bool) (i : ℕ) (batch : Batch)
    → ((j : ℕ) → takes j ≡ true)
    → takes_all takes i batch ≡ true
unfolding takes_all
takes_all-true takes i [] h = refl
takes_all-true takes i (pair ∷ batch) h = simp (h i, takes_all-true takes (i + 1) batch h)

read_replies_taken :
    (s : Loader) (p : Pipe)
    → p.takes_read_deadline p.line.sent ≡ true
    → read_replies s p ≡ after_drain s p (drain s.batch p.line.incoming s.tally)
unfolding read_replies
read_replies_taken s p taken = simp taken

flush_to_taken :
    (s : Loader) (p : Pipe)
    → Takes p s.batch
    → let p' = record p { line = record p.line { sent = p.line.sent ++ set_texts s.batch } } in
      flush_to s p ≡ read_replies s p'
unfolding flush_to
flush_to_taken s p h =
    (simp (h.write_deadline, takes_all-true (p.takes_command p.line.sent) 0 s.batch h.all, h.flush))
    ∙ ap (λ b. read_replies s (record p { line = record p.line { sent = p.line.sent ++ b } }))
        (commands-set_texts s.batch)

flush_on-some :
    (s : Loader) (batch : Batch) (p : Pipe)
    → 0 < length batch
    → flush_on s batch (some p) ≡ flush_to s p
unfolding flush_on
flush_on-some s [] p h = absurd (omega arith)
flush_on-some s (pair ∷ batch) p h = refl

-- A flush in which the server answers each SET with a line of its own, `+OK` or an error, succeeds with
-- the stream in sync, whatever else is already to come: the text of `SET key value` was sent for each
-- pair of the batch in its order and nothing else, exactly the answers were read, and the counters grow by the pairs that were stored, their sizes, and the rejections. Conditions:
-- the batch is not empty, the connection takes the deadlines and the bytes, and no error has a newline.
pub flush_in_sync :
    (s : Loader) (p : Pipe) (answers : List Answer) (rest : Bytes)
    → s.conn ≡ some p
    → 0 < length s.batch
    → Takes p s.batch
    → p.line.incoming ≡ respond answers ++ rest
    → length answers ≡ length s.batch
    → All IsLine answers
    → let line = record p.line { sent = p.line.sent ++ set_texts s.batch; incoming = rest } in
      flush s ≡ (
        record s {
          conn = some (record p { line = line });
          tally = tally_after s.batch answers s.tally;
          batch = [];
        },
        flushed,
      )
unfolding flush after_drain
flush_in_sync s p answers rest opened filled taken arrives same lines =
    let p' = record p { line = record p.line { sent = p.line.sent ++ set_texts s.batch } } in
    ap (flush_on s s.batch) opened
    ∙ flush_on-some s s.batch p filled
    ∙ flush_to_taken s p taken
    ∙ read_replies_taken s p' taken.read_deadline
    ∙ ap (λ b. after_drain s p' (drain s.batch b s.tally)) arrives
    ∙ ap (after_drain s p') (drain-respond s.batch answers rest s.tally same lines)
