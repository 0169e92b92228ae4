-- ===== src/Tools/FailoverProbe/Client.antt =====
-- The RESP client of tools/failover-probe/main.go. Its `readReply` and `readLine` are the text of
-- internal/redis/resp.go but for the words of their errors, so they are those functions here. A
-- connection is its answers: whether it takes a deadline, by what was sent before, and a write, and the
-- bytes that will arrive. A command that runs into its deadline is one whose reply does not arrive.
pub mod Crash
use mathlib.Core.List.{foldl}
use redis_replication_contro.Base.{
  ℕ, suc, Bool, true, false, Option, none, some, List, [], ◌∷◌, ◌++◌, ltb, if◌then◌else◌, length,
  take, drop,
}
use redis_replication_contro.Base.Int.{ℤ, pos}
use redis_replication_contro.Base.Result.{Result, ok, err}
use redis_replication_contro.Base.Bytes.{Bytes, codes, is_empty, trim_space, split, cut, has_prefix}
use redis_replication_contro.Strconv.{parse_int, format_nat}
use redis_replication_contro.Redis.Resp
use redis_replication_contro.Redis.Resp.{
  Reply, nil, str, int, arr, RespError, panic, redis_error, crlf, write_bulks,
}
use redis_replication_contro.Redis.Info.{to_string}

pub record Conn : Type 0 where
  pub takes_deadline : Bytes → Bool
  pub takes_write : Bytes → Bool
  pub sent : Bytes
  pub incoming : Bytes

pub data ToolError : Type 0 where
  deadline_refused write_failed : ToolError
  unreadable : RespError → ToolError
  unexpected : Reply → ToolError

-- A `make` that is out of range ends the process.
abbrev pub is_panic : ToolError → Bool
is_panic (unreadable panic) = true
is_panic e = false

-- Unlike `writeCommand` it writes an empty command too.
unfoldable pub write_cmd : List Bytes → Bytes
write_cmd args = b'*' ∷ format_nat (length args) ++ (crlf ++ write_bulks args)

unfoldable pub read_reply : ℕ → Bytes → Result RespError Reply × Bytes
read_reply f s = Resp.read_reply f s

abbrev pub from_reply : Result RespError Reply → Result ToolError Reply
from_reply (ok r) = ok r
from_reply (err e) = err (unreadable e)

unfoldable pub receive : Conn → Result ToolError Reply × Conn
unfolding read_reply
receive c =
    let (r, rest) = read_reply (suc (length c.incoming)) c.incoming in
    (from_reply r, record c { incoming = rest })

unfoldable pub do_cmd : List Bytes → Conn → Result ToolError Reply × Conn
unfolding receive
do_cmd args c =
    let write =
      if c.takes_write (write_cmd args)
      then receive (record c { sent = c.sent ++ write_cmd args })
      else (err write_failed, c) in
    if c.takes_deadline c.sent then write else (err deadline_refused, c)

-- "" stands for a missing key too.
abbrev get_reply : Reply → Result ToolError Bytes
get_reply nil = ok []
get_reply (str s) = ok s
get_reply (int n) = err (unexpected (int n))
get_reply (arr rs) = err (unexpected (arr rs))

abbrev incr_reply : Reply → Result ToolError ℤ
incr_reply (int n) = ok n
incr_reply nil = err (unexpected nil)
incr_reply (str s) = err (unexpected (str s))
incr_reply (arr rs) = err (unexpected (arr rs))

abbrev of_reply :
    {A : Type 0}
    → (Reply → Result ToolError A)
    → Result ToolError Reply × Conn
    → Result ToolError A × Conn
of_reply f (ok r, c) = (f r, c)
of_reply f (err e, c) = (err e, c)

unfoldable pub get : Bytes → Conn → Result ToolError Bytes × Conn
get key c = of_reply get_reply (do_cmd (codes "GET" ∷ key ∷ []) c)

unfoldable pub incr : Bytes → Conn → Result ToolError ℤ × Conn
incr key c = of_reply incr_reply (do_cmd (codes "INCR" ∷ key ∷ []) c)

field_in : List Bytes → Bytes → Bytes
field_in [] prefix = []
field_in (line ∷ lines) prefix =
    let rest = field_in lines prefix in
    let trimmed = trim_space line in
    if has_prefix trimmed prefix then trim_space (drop (length prefix) trimmed) else rest

-- The first line of an INFO text that begins with the prefix, without it.
unfoldable pub info_field : Bytes → Bytes → Bytes
unfolding field_in
info_field info prefix = field_in (split info 10) prefix

-- `strings.SplitN(s, ",", 2)[0]`
abbrev before_comma : Bytes → Bytes
before_comma s = elim (cut s b',') [ none ↦ s | some (k, v) ↦ k ]

count_keys : ℤ → Bytes → ℤ
count_keys size line =
    let trimmed = trim_space line in
    if has_prefix trimmed (codes "db0:keys=")
    then (parse_int (before_comma (drop (length (codes "db0:keys=")) trimmed))).0
    else size

pub record Identity : Type 0 where
  pub run_id : Bytes
  pub role : Bytes
  pub db_size : ℤ

identity_of : Bytes → Identity
unfolding count_keys
identity_of s = record {
  run_id = info_field s (codes "run_id:");
  role = info_field s (codes "role:");
  db_size = foldl count_keys (pos 0) (split s 10);
}

identified : Result ToolError Reply × Conn → Option Identity × Conn
unfolding identity_of
identified (err e, c) =
    (if is_panic e then none else some (record { run_id = []; role = []; db_size = pos 0 }), c)
identified (ok r, c) = (some (identity_of (to_string r)), c)

-- An error leaves the connection in use, with empty names; `none` is a panic.
unfoldable pub identify : Conn → Option Identity × Conn
unfolding identified
identify c = identified (do_cmd (codes "INFO" ∷ []) c)

unfoldable pub is_read_only : ToolError → Bool
is_read_only (unreadable (redis_error msg)) = has_prefix msg (codes "READONLY")
is_read_only e = false

unfoldable pub short : Bytes → Bytes
short id = if ltb 12 (length id) then take 12 id else if is_empty id then codes "?" else id
