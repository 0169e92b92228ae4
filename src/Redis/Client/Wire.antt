-- ===== src/Redis/Client/Wire.antt =====
-- What the commands put on the wire, and what they return for the replies of a server.
use redis_replication_contro.Base.{
  ℕ, suc, ◌+◌, ◌≤◌, ◌≡◌, refl, ap, ◌∙◌, true, some, List, [], ◌∷◌, ◌++◌, arith, length,
}
use redis_replication_contro.Base.Result.{Result, ok}
use redis_replication_contro.Base.Bytes.{Bytes, codes}
use redis_replication_contro.Strconv.{format_nat}
use redis_replication_contro.Redis.Resp.{
  Reply, str, RespError, crlf, write_command, write_bulk, write_bulks, read_reply,
}
use redis_replication_contro.Redis.Resp.RoundTrip.{Fits, read_reply-write_bulk}
use redis_replication_contro.Redis.Info.{ReplicationInfo, parse_replication_info}
use redis_replication_contro.Redis.Info.RoundTrip.{
  info_text, entries_of, IsPrintable, parse-info_text,
}
use redis_replication_contro.Redis.Client.{
  Socket, Times, from_reply, send, receive, deadline, do_command, info_replication,
}

-- A deadline is never later than the command timeout allows, nor than the deadline of the context.
pub deadline_bounds :
    (now timeout d : ℕ)
    → (deadline now timeout (some d) ≤ now + timeout) × (deadline now timeout (some d) ≤ d)
unfolding deadline
deadline_bounds now timeout d = ground arith

-- The socket takes this deadline and every write.
pub record IsOpen (t : Times) (c : Socket) : Type 0 where
  pub deadline : c.takes_deadline (deadline t.now t.cmd_timeout t.ctx_deadline) ≡ true
  pub write : (b : Bytes) → c.takes_write b ≡ true

-- An exchange on an open socket: the command is appended to what was sent, and one reply is read.
do_command_open :
    (t : Times) (c : Socket) (args : List Bytes) (b : Bytes) (r : Result RespError Reply × Bytes)
    → IsOpen t c
    → write_command args ≡ some b
    → read_reply (suc (length c.incoming)) c.incoming ≡ r
    → do_command t args c ≡ (from_reply r.0, record c { sent = c.sent ++ b; incoming = r.1 })
unfolding do_command
do_command_open t c args b r io w e = rw (io.deadline, w, send, io.write b, receive, e)

written : (a : Bytes) (args : List Bytes) → (b : Bytes) × (write_command (a ∷ args) ≡ some b)
unfolding write_command
written a args = (b'*' ∷ format_nat (length (a ∷ args)) ++ (crlf ++ write_bulks (a ∷ args)), refl)

reply_incoming :
    (c : Socket) (text rest : Bytes)
    → Fits text
    → c.incoming ≡ write_bulk text ++ rest
    → read_reply (suc (length c.incoming)) c.incoming ≡ (ok (str text), rest)
reply_incoming c text rest fits e =
    ap (read_reply (suc (length c.incoming))) e
    ∙ read_reply-write_bulk (length c.incoming) text rest fits

info_replication_text :
    (t : Times) (c : Socket) (text rest : Bytes)
    → IsOpen t c
    → Fits text
    → c.incoming ≡ write_bulk text ++ rest
    → ((info_replication t c).0 ≡ ok (parse_replication_info text))
      × ((info_replication t c).1.incoming ≡ rest)
unfolding info_replication
info_replication_text t c text rest io fits e =
    let b = written (codes "INFO") (codes "replication" ∷ []) in
    let x =
      do_command_open t c (codes "INFO" ∷ codes "replication" ∷ []) b.0 (ok (str text), rest) io b.1
        (reply_incoming c text rest fits e) in
    rw x (refl, refl)

-- On an open socket `INFO replication` returns the report of the server whose INFO text arrives as a
-- bulk string, and leaves unread what follows. Conditions: the report is printable (`IsPrintable`) and
-- the text's length with CRLF is a 64-bit number.
pub info_replication-report :
    (t : Times) (c : Socket) (r : ReplicationInfo) (rest : Bytes)
    → IsOpen t c
    → IsPrintable r
    → Fits (info_text (entries_of r))
    → c.incoming ≡ write_bulk (info_text (entries_of r)) ++ rest
    → ((info_replication t c).0 ≡ ok r) × ((info_replication t c).1.incoming ≡ rest)
info_replication-report t c r rest io h fits e =
    let facts = info_replication_text t c (info_text (entries_of r)) rest io fits e in
    (facts.0 ∙ ap ok (parse-info_text r h), facts.1)
