-- ===== src/Tools/DataLoader/Flush.antt =====
-- `flush` of tools/data-loader/main.go: a batch is written in one piece, and then its replies are read.
-- The batch, which alternates keys and values there, is a list of pairs. A nil connection is `none`: to
-- call it panics, as does a reply whose length `make` cannot allocate. The counters are natural numbers.
pub mod Accounts
pub mod InSync
use redis_replication_contro.Base.{
  ℕ, zero, suc, ◌+◌, Bool, true, false, not, ◌&&◌, Option, none, some, List, [], ◌∷◌, ◌++◌,
  if◌then◌else◌, length,
}
use redis_replication_contro.Base.Result.{Result, ok, err}
use redis_replication_contro.Base.Bytes.{Bytes, codes, bytes_eq}
use redis_replication_contro.Redis.Resp.{
  Reply, nil, str, int, arr, RespError, eof, empty_line, panic, out_of_fuel, redis_error,
  bad_integer, bad_bulk_length, bad_array_length, unknown_type,
}
use redis_replication_contro.Tools.FailoverProbe.Client.{Conn}
use redis_replication_contro.Tools.DataLoader.Client.{Pipe, write_cmd, read_reply}

abbrev pub Batch : Type 0
Batch = List (Bytes × Bytes)

-- `writtenBytes`, `keyCount` and `errCount`.
pub record Tally : Type 0 where
  pub written : ℕ
  pub keys : ℕ
  pub errs : ℕ

pub record Loader : Type 0 where
  pub conn : Option Pipe
  pub batch : Batch
  pub tally : Tally
  pub idx : ℕ

-- What `flush` returns, or that it panics.
pub data Flushed : Type 0 where
  flushed broken panicked : Flushed

abbrev pub count_err : Tally → Tally
count_err t = record t { errs = t.errs + 1 }

-- A stored pair counts 40 bytes more than its texts.
abbrev pub size : Bytes × Bytes → ℕ
size (key, value) = length key + length value + 40

abbrev pub count_ok : Bytes × Bytes → Tally → Tally
count_ok pair t = record t { written = t.written + size pair; keys = t.keys + 1 }

-- The counters, the bytes still to come, and how the loop over the replies ends.
abbrev pub Drained : Type 0
Drained = Tally × Bytes × Flushed

pub count_reply : Reply → Bytes × Bytes → Tally → Tally
count_reply (str s) pair t = if bytes_eq s (codes "OK") then count_ok pair t else count_err t
count_reply nil pair t = count_err t
count_reply (int n) pair t = count_err t
count_reply (arr rs) pair t = count_err t

-- An error of the server is the reply of one command; another error breaks the connection.
pub on_reply :
    (Bytes → Tally → Drained) → Bytes × Bytes → Tally → Result RespError Reply × Bytes → Drained
unfolding count_reply
on_reply next pair t (ok r, s) = next s (count_reply r pair t)
on_reply next pair t (err (redis_error msg), s) = next s (count_err t)
on_reply next pair t (err panic, s) = (t, s, panicked)
on_reply next pair t (err eof, s) = (count_err t, s, broken)
on_reply next pair t (err empty_line, s) = (count_err t, s, broken)
on_reply next pair t (err out_of_fuel, s) = (count_err t, s, broken)
on_reply next pair t (err (bad_integer e), s) = (count_err t, s, broken)
on_reply next pair t (err (bad_bulk_length x), s) = (count_err t, s, broken)
on_reply next pair t (err (bad_array_length x), s) = (count_err t, s, broken)
on_reply next pair t (err (unknown_type c), s) = (count_err t, s, broken)

pub drain : Batch → Bytes → Tally → Drained
unfolding on_reply
drain [] s t = (t, s, flushed)
drain (pair ∷ batch) s t = on_reply (drain batch) pair t (read_reply (suc (length s)) s)

pub commands : Batch → Bytes
commands [] = []
commands ((key, value) ∷ batch) = write_cmd (codes "SET" ∷ key ∷ value ∷ []) ++ commands batch

-- Whether the buffered writer takes the commands from the i-th on.
pub takes_all : (ℕ → Bool) → ℕ → Batch → Bool
takes_all takes i [] = true
takes_all takes i (pair ∷ batch) = takes i && takes_all takes (i + 1) batch

-- After all replies, the batch is emptied.
pub after_drain : Loader → Pipe → Drained → Loader × Flushed
after_drain s p (t, rest, flushed) = (
  record s {
    conn = some (record p { line = record p.line { incoming = rest } });
    tally = t;
    batch = [];
  },
  flushed,
)
after_drain s p (t, rest, broken) = (
  record s { conn = some (record p { line = record p.line { incoming = rest } }); tally = t },
  broken,
)
after_drain s p (t, rest, panicked) = (
  record s { conn = some (record p { line = record p.line { incoming = rest } }); tally = t },
  panicked,
)

pub read_replies : Loader → Pipe → Loader × Flushed
unfolding drain after_drain
read_replies s p =
    if p.takes_read_deadline p.line.sent
    then after_drain s p (drain s.batch p.line.incoming s.tally)
    else (record s { conn = some p }, broken)

-- What a write that fails has sent is not modelled: `main` closes the connection then.
pub flush_to : Loader → Pipe → Loader × Flushed
unfolding takes_all commands read_replies
flush_to s p =
    let failed : Loader × Flushed = (record s { tally = count_err s.tally }, broken) in
    let sent = p.line.sent ++ commands s.batch in
    if not (p.takes_write_deadline p.line.sent)
    then (s, broken)
    else if not (takes_all (p.takes_command p.line.sent) 0 s.batch)
    then failed
    else if not (p.takes_flush p.line.sent)
    then failed
    else read_replies s (record p { line = record p.line { sent = sent } })

unfoldable pub flush_on : Loader → Batch → Option Pipe → Loader × Flushed
unfolding flush_to
flush_on s [] c = (s, flushed)
flush_on s (pair ∷ batch) none = (s, panicked)
flush_on s (pair ∷ batch) (some p) = flush_to s p

unfoldable pub flush : Loader → Loader × Flushed
unfolding flush_on
flush s = flush_on s s.batch s.conn
