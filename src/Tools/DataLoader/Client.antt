-- ===== src/Tools/DataLoader/Client.antt =====
-- The RESP client of tools/data-loader/main.go. Its `writeCmd`, `readReply`, `infoField` and `short` are
-- the text of tools/failover-probe/main.go but for the words of the errors, so they are those functions
-- here. A connection is described as there, and by what it does with a batch.
use redis_replication_contro.Base.{ℕ, Bool, Option, none, some, List, [], ◌∷◌, if◌then◌else◌}
use redis_replication_contro.Base.Result.{Result, ok, err}
use redis_replication_contro.Base.Bytes.{Bytes, codes}
use redis_replication_contro.Redis.Resp.{Reply, RespError}
use redis_replication_contro.Redis.Info.{to_string}
use redis_replication_contro.Tools.FailoverProbe.Client
use redis_replication_contro.Tools.FailoverProbe.Client.{Conn, ToolError, is_panic, do_cmd}

unfoldable pub write_cmd : List Bytes → Bytes
write_cmd args = Client.write_cmd args

unfoldable pub read_reply : ℕ → Bytes → Result RespError Reply × Bytes
read_reply f s = Client.read_reply f s

unfoldable pub info_field : Bytes → Bytes → Bytes
info_field info prefix = Client.info_field info prefix

unfoldable short : Bytes → Bytes
short id = Client.short id

-- Each answer is by what was sent before. `takes_command i` tells whether the buffered writer takes the
-- i-th command of a batch: it fails from the first failed write to the connection on.
pub record Pipe : Type 0 where
  pub line : Conn
  pub takes_write_deadline : Bytes → Bool
  pub takes_command : Bytes → ℕ → Bool
  pub takes_flush : Bytes → Bool
  pub takes_read_deadline : Bytes → Bool

identified : Result ToolError Reply × Conn → Option (Bytes × Bytes) × Conn
identified (err e, c) = (if is_panic e then none else some ([], []), c)
identified (ok r, c) =
    (some (info_field (to_string r) (codes "run_id:"), info_field (to_string r) (codes "role:")), c)

-- The run id and the role; an error leaves the connection in use, and `none` is a panic.
unfoldable pub identify : Conn → Option (Bytes × Bytes) × Conn
unfolding identified
identify c = identified (do_cmd (codes "INFO" ∷ []) c)
