-- ===== src/Config/Load.antt =====
-- `Load`: every variable with its default, then the validation. `strings.ToLower` is modelled on ASCII.
use redis_replication_contro.Base.{Bool, true, false, Option, []}
use redis_replication_contro.Base.Int.{ℤ, pos}
use redis_replication_contro.Base.Result.{Result, ok, ◌>>=◌, ◌>>◌}
use redis_replication_contro.Base.Bytes.{Bytes, codes, to_lower}
use redis_replication_contro.Config.{Config, ConfigError, strategy_lowest_pod_ordinal, validate}
use redis_replication_contro.Config.Env.{
  Env, get_env, default_controller_id, get_env_int, get_env_seconds, get_env_bool,
}
use redis_replication_contro.Config.Namespaces.{parse_namespaces}

-- The values that are read with an error.
pub record Parsed : Type 0 where
  pub redis_port : ℤ
  pub probe_concurrency : ℤ
  pub reconcile_interval : ℤ
  pub master_failure_threshold : ℤ
  pub redis_connect_timeout : ℤ
  pub redis_command_timeout : ℤ
  pub enable_leader_election : Bool
  pub config_rewrite : Bool

unfoldable pub load_parsed : Env → Result ConfigError Parsed
load_parsed env = do
  port ← get_env_int env (codes "REDIS_PORT") (pos 6379)
  concurrency ← get_env_int env (codes "PROBE_CONCURRENCY") (pos 16)
  interval ← get_env_seconds env (codes "RECONCILE_INTERVAL_SECONDS") (pos 10)
  threshold ← get_env_seconds env (codes "MASTER_FAILURE_THRESHOLD_SECONDS") (pos 15)
  connect ← get_env_seconds env (codes "REDIS_CONNECT_TIMEOUT_SECONDS") (pos 2)
  command ← get_env_seconds env (codes "REDIS_COMMAND_TIMEOUT_SECONDS") (pos 2)
  election ← get_env_bool env (codes "ENABLE_LEADER_ELECTION") true
  rewrite ← get_env_bool env (codes "ENABLE_CONFIG_REWRITE") false
  ok (record {
    redis_port = port;
    probe_concurrency = concurrency;
    reconcile_interval = interval;
    master_failure_threshold = threshold;
    redis_connect_timeout = connect;
    redis_command_timeout = command;
    enable_leader_election = election;
    config_rewrite = rewrite;
  })

unfoldable pub assemble : Env → Option Bytes → Parsed → Config
assemble env hostname p =
    let namespace = get_env env (codes "REDIS_NAMESPACE") (codes "default") in
    record {
      redis_namespace = namespace;
      redis_namespaces = parse_namespaces (get_env env (codes "REDIS_NAMESPACES") []) namespace;
      redis_pod_label_selector = get_env env (codes "REDIS_POD_LABEL_SELECTOR") (codes "app=redis");
      redis_port = p.redis_port;
      redis_write_service_name =
          get_env env (codes "REDIS_WRITE_SERVICE_NAME") (codes "redis-write");
      reconcile_interval = p.reconcile_interval;
      master_failure_threshold = p.master_failure_threshold;
      redis_connect_timeout = p.redis_connect_timeout;
      redis_command_timeout = p.redis_command_timeout;
      controller_id = get_env env (codes "CONTROLLER_ID") (default_controller_id hostname);
      enable_leader_election = p.enable_leader_election;
      lease_name = get_env env (codes "LEASE_NAME") (codes "redis-replication-controller");
      lease_namespace = get_env env (codes "LEASE_NAMESPACE") namespace;
      initial_master_strategy =
          to_lower (get_env env (codes "INITIAL_MASTER_STRATEGY") strategy_lowest_pod_ordinal);
      redis_set_label_key = get_env env (codes "REDIS_SET_LABEL_KEY") (codes "redis-set");
      default_set_name = get_env env (codes "DEFAULT_SET_NAME") (codes "default");
      probe_concurrency = p.probe_concurrency;
      config_rewrite = p.config_rewrite;
      health_probe_addr = get_env env (codes "HEALTH_PROBE_ADDR") (codes ":8081");
    }

-- The caller uses the configuration only without an error.
unfoldable pub load : Env → Option Bytes → Result ConfigError Config
load env hostname = do p ← load_parsed env; let c = assemble env hostname p; validate c; ok c
