-- ===== src/Entry.antt =====
-- cmd/main.go: the start of the program and its health server. The in-cluster configuration and the
-- Kubernetes client are client-go's: whether they can be had is an argument.
pub mod Starts
pub mod Process
mod Tests
use redis_replication_contro.Base.{
  ℕ, Bool, true, false, Option, none, some, List, [], ◌∷◌, ◌++◌, if◌then◌else◌,
}
use redis_replication_contro.Base.Result.{Result, ok, err}
use redis_replication_contro.Base.Bytes.{Bytes, codes, bytes_eq}
use redis_replication_contro.Config.{Config, ConfigError}
use redis_replication_contro.Config.Env.{Env}
use redis_replication_contro.Config.Load.{load}

-- `LOG_LEVEL`: `unmarshal` is `UnmarshalText`, whose error leaves the level at INFO.
unfoldable log_level : {Level : Type 0} → (Bytes → Option Level) → Level → Option Bytes → Level
log_level unmarshal info none = info
log_level unmarshal info (some []) = info
log_level unmarshal info (some (c ∷ v)) = elim (unmarshal (c ∷ v)) [
  | none ↦ info
  | some level ↦ level
]

-- Why the program exits with 1.
pub data Fatal : Type 0 where
  invalid_configuration : ConfigError → Fatal
  no_cluster_config no_client : Fatal

pub record Platform : Type 0 where
  pub env : Env
  pub hostname : Option Bytes
  pub has_cluster_config : Bool
  pub has_client : Bool

-- What runs then: the controller with its configuration, under the leader election or alone.
pub data Launch : Type 0 where
  elected alone : Config → Launch

abbrev pub config_of : Launch → Config
config_of (elected cfg) = cfg
config_of (alone cfg) = cfg

pub connect : Platform → Result ConfigError Config → Result Fatal Launch
connect p (err e) = err (invalid_configuration e)
connect p (ok cfg) =
    if p.has_cluster_config
    then (if p.has_client
        then ok (if cfg.enable_leader_election then elected cfg else alone cfg)
        else err no_client)
    else err no_cluster_config

pub main : Platform → Result Fatal Launch
unfolding connect
main p = connect p (load p.env p.hostname)

record Response : Type 0 where
  pub status : ℕ
  pub body : Bytes

abbrev fine : Response
fine = record { status = 200; body = codes "ok" ++ 10 ∷ [] }

healthz : Response
healthz = fine

readyz : Bool → Response
readyz true = fine
readyz false = record { status = 503; body = codes "reconcile stale" ++ 10 ∷ [] }

-- The two paths of the mux; `none` is a path without a handler.
unfoldable handle : Bool → Bytes → Option Response
unfolding healthz readyz
handle is_ready path =
    if bytes_eq path (codes "/healthz")
    then some healthz
    else if bytes_eq path (codes "/readyz")
    then some (readyz is_ready)
    else none

-- The address that `serveHealth` listens on; `none` if it returns at once.
pub serve_health : Bytes → Option Bytes
serve_health [] = none
serve_health (c ∷ addr) = some (c ∷ addr)
