-- ===== src/Redis/Client.antt =====
-- internal/redis/client.go: one command on a TCP connection, and the commands that the controller uses.
-- The socket is the environment: whether it takes a deadline and a write, and the bytes that will arrive
-- before the deadline; `sent` collects what was written.
pub mod Wire
use redis_replication_contro.Base.{
  ℕ, suc, ◌+◌, Bool, true, false, Option, none, some, List, [], ◌∷◌, ◌++◌, ltb, if◌then◌else◌,
  length,
}
use redis_replication_contro.Base.Result.{Result, ok, err}
use redis_replication_contro.Base.Int.{ℤ}
use redis_replication_contro.Base.Bytes.{Bytes, codes, bytes_eq}
use redis_replication_contro.Strconv.{format_int}
use redis_replication_contro.Redis.Resp.{
  Reply, nil, str, int, arr, RespError, write_command, read_reply,
}
use redis_replication_contro.Redis.Info.{
  RoleInfo, RoleError, ReplicationInfo, parse_role_reply, parse_replication_info,
}

pub record Socket : Type 0 where
  pub takes_deadline : ℕ → Bool
  pub takes_write : Bytes → Bool
  pub sent : Bytes
  pub incoming : Bytes

pub data ClientError : Type 0 where
  deadline_refused write_failed empty_command : ClientError
  no_reply : RespError → ClientError
  unexpected : Reply → ClientError
  bad_role : RoleError → ClientError

-- `now` plus the command timeout, or the deadline of the context if that is sooner.
unfoldable pub deadline : ℕ → ℕ → Option ℕ → ℕ
deadline now timeout none = now + timeout
deadline now timeout (some d) = if ltb d (now + timeout) then d else now + timeout

-- The times of one call: the clock, the connection's command timeout, the deadline of the context.
pub record Times : Type 0 where
  pub now : ℕ
  pub cmd_timeout : ℕ
  pub ctx_deadline : Option ℕ

abbrev pub from_reply : Result RespError Reply → Result ClientError Reply
from_reply (ok r) = ok r
from_reply (err e) = err (no_reply e)

-- `readReply` on the socket, with more fuel than there are bytes to read.
receive : Socket → Result ClientError Reply × Socket
receive c =
    let (r, rest) = read_reply (suc (length c.incoming)) c.incoming in
    (from_reply r, record c { incoming = rest })

send : Option Bytes → Socket → Result ClientError Reply × Socket
unfolding receive
send none c = (err empty_command, c)
send (some b) c =
    if c.takes_write b then receive (record c { sent = c.sent ++ b }) else (err write_failed, c)

unfoldable pub do_command : Times → List Bytes → Socket → Result ClientError Reply × Socket
unfolding send
do_command t args c =
    if c.takes_deadline (deadline t.now t.cmd_timeout t.ctx_deadline)
    then send (write_command args) c
    else (err deadline_refused, c)

-- What a command makes of the reply.
abbrev pub of_reply :
    {A : Type 0}
    → (Reply → Result ClientError A)
    → Result ClientError Reply × Socket
    → Result ClientError A × Socket
of_reply f (ok r, c) = (f r, c)
of_reply f (err e, c) = (err e, c)

pong : Reply → Result ClientError Unit
pong (str s) = if bytes_eq s (codes "PONG") then ok tt else err (unexpected (str s))
pong r = err (unexpected r)

unfoldable pub ping : Times → Socket → Result ClientError Unit × Socket
unfolding pong
ping t c = of_reply pong (do_command t (codes "PING" ∷ []) c)

abbrev pub role_reply : Result RoleError RoleInfo → Result ClientError RoleInfo
role_reply (ok info) = ok info
role_reply (err e) = err (bad_role e)

unfoldable pub role : Times → Socket → Result ClientError RoleInfo × Socket
role t c = of_reply (λ r. role_reply (parse_role_reply r)) (do_command t (codes "ROLE" ∷ []) c)

info_reply : Reply → Result ClientError ReplicationInfo
info_reply (str s) = ok (parse_replication_info s)
info_reply r = err (unexpected r)

unfoldable pub info_replication : Times → Socket → Result ClientError ReplicationInfo × Socket
unfolding info_reply
info_replication t c =
    of_reply info_reply (do_command t (codes "INFO" ∷ codes "replication" ∷ []) c)

-- `_, err := c.do(…); return err`: the reply is dropped.
abbrev pub done : Reply → Result ClientError Unit
done r = ok tt

unfoldable pub replica_of : Bytes → ℤ → Times → Socket → Result ClientError Unit × Socket
replica_of host port t c =
    of_reply done (do_command t (codes "REPLICAOF" ∷ host ∷ format_int port ∷ []) c)

unfoldable pub replica_of_no_one : Times → Socket → Result ClientError Unit × Socket
replica_of_no_one t c =
    of_reply done (do_command t (codes "REPLICAOF" ∷ codes "NO" ∷ codes "ONE" ∷ []) c)

unfoldable pub config_rewrite : Times → Socket → Result ClientError Unit × Socket
config_rewrite t c = of_reply done (do_command t (codes "CONFIG" ∷ codes "REWRITE" ∷ []) c)
