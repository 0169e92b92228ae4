-- ===== src/Redis/Info.antt =====
-- internal/redis/parse.go: the replies of `INFO replication` and `ROLE`.
pub mod RoundTrip
pub mod Bounds
use mathlib.Core.List.{foldl}
use redis_replication_contro.Base.{
  Bool, true, false, ◌||◌, Option, none, some, List, [], ◌∷◌, if◌then◌else◌,
}
use redis_replication_contro.Base.Result.{Result, ok, err}
use redis_replication_contro.Base.Int.{ℤ, pos}
use redis_replication_contro.Base.Bytes.{
  Bytes, codes, bytes_eq, is_empty, trim_space, split, cut, has_prefix,
}
use redis_replication_contro.Strconv.{parse_int}
use redis_replication_contro.Redis.Resp.{Reply, nil, str, int, arr, Replies, end, item}

-- Redis reports replicas under the older name.
abbrev pub role_master : Bytes
role_master = codes "master"

abbrev pub role_replica : Bytes
role_replica = codes "slave"

pub record RoleInfo : Type 0 where
  pub role : Bytes
  pub repl_offset : ℤ
  pub master_host : Bytes
  pub master_port : ℤ
  pub repl_state : Bytes

pub record ReplicationInfo : Type 0 where
  pub role : Bytes
  pub connected_slaves : ℤ
  pub master_host : Bytes
  pub master_port : ℤ
  pub master_link_status : Bytes
  pub master_repl_offset : ℤ
  pub slave_repl_offset : ℤ

abbrev pub empty_info : ReplicationInfo
empty_info = record {
  role = [];
  connected_slaves = pos 0;
  master_host = [];
  master_port = pos 0;
  master_link_status = [];
  master_repl_offset = pos 0;
  slave_repl_offset = pos 0;
}

-- The methods take a pointer: `none` is nil.
unfoldable pub is_master : Option ReplicationInfo → Bool
is_master none = false
is_master (some r) = bytes_eq r.role role_master

unfoldable pub is_replica : Option ReplicationInfo → Bool
is_replica none = false
is_replica (some r) = bytes_eq r.role role_replica

unfoldable pub offset : Option ReplicationInfo → ℤ
offset none = pos 0
offset (some r) = if bytes_eq r.role role_master then r.master_repl_offset else r.slave_repl_offset

-- The value beside an error of `ParseInt` is kept.
unfoldable pub to_int64 : Reply → ℤ
to_int64 (int n) = n
to_int64 (str x) = (parse_int (trim_space x)).0
to_int64 nil = pos 0
to_int64 (arr xs) = pos 0

-- `v, _ = reply.(string)`
unfoldable pub to_string : Reply → Bytes
to_string (str x) = x
to_string nil = []
to_string (int n) = []
to_string (arr xs) = []

pub data RoleError : Type 0 where
  unexpected_reply role_not_string : RoleError
  unexpected_value : RoleInfo → RoleError

abbrev pub role_only : Bytes → RoleInfo
role_only role = record {
  role = role;
  repl_offset = pos 0;
  master_host = [];
  master_port = pos 0;
  repl_state = [];
}

master_fields : RoleInfo → Replies → RoleInfo
unfolding to_int64
master_fields info end = info
master_fields info (item a rest) = record info { repl_offset = to_int64 a }

replica_fields : RoleInfo → Replies → RoleInfo
unfolding to_int64 to_string
replica_fields info (item a (item b (item c (item d rest)))) = record info {
  master_host = to_string a;
  master_port = to_int64 b;
  repl_state = to_string c;
  repl_offset = to_int64 d;
}
replica_fields info _ = info

unfoldable pub parse_role_reply : Reply → Result RoleError RoleInfo
unfolding master_fields replica_fields
parse_role_reply (arr (item (str role) rest)) =
    if bytes_eq role role_master
    then ok (master_fields (role_only role) rest)
    else if bytes_eq role role_replica
    then ok (replica_fields (role_only role) rest)
    else err (unexpected_value (role_only role))
parse_role_reply (arr (item _ rest)) = err role_not_string
parse_role_reply _ = err unexpected_reply

-- One `key:value` line; a later line with the same key wins.
unfoldable pub set_field : ReplicationInfo → Bytes → Bytes → ReplicationInfo
unfolding to_int64
set_field info key val =
    if bytes_eq key (codes "role")
    then record info { role = val }
    else if bytes_eq key (codes "connected_slaves")
    then record info { connected_slaves = to_int64 (str val) }
    else if bytes_eq key (codes "master_host")
    then record info { master_host = val }
    else if bytes_eq key (codes "master_port")
    then record info { master_port = to_int64 (str val) }
    else if bytes_eq key (codes "master_link_status")
    then record info { master_link_status = val }
    else if bytes_eq key (codes "master_repl_offset")
    then record info { master_repl_offset = to_int64 (str val) }
    else if bytes_eq key (codes "slave_repl_offset")
    then record info { slave_repl_offset = to_int64 (str val) }
    else info

unfoldable pub parse_trimmed : ReplicationInfo → Bytes → ReplicationInfo
unfolding set_field
parse_trimmed info line =
    if is_empty line || has_prefix line (codes "#")
    then info
    else elim (cut line b':') [ none ↦ info | some (key, val) ↦ set_field info key val ]

-- One line of the text.
unfoldable pub parse_line : ReplicationInfo → Bytes → ReplicationInfo
unfolding parse_trimmed
parse_line info line = parse_trimmed info (trim_space line)

unfoldable pub parse_replication_info : Bytes → ReplicationInfo
unfolding parse_line
parse_replication_info s = foldl parse_line empty_info (split s 10)
