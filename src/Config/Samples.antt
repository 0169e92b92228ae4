-- ===== src/Config/Samples.antt =====
-- An environment without variables, and the configuration that comes of it.
use redis_replication_contro.Base.{◌≡◌, refl, true, false, none, some, [], ◌∷◌}
use redis_replication_contro.Base.Int.{pos, wrap64}
use redis_replication_contro.Base.Result.{ok}
use redis_replication_contro.Base.Bytes.{codes, split, bytes_eq, trim_space, to_lower}
use redis_replication_contro.Config.{Config, is_strategy, validate}
use redis_replication_contro.Config.Env.{
  Env, get_env, get_env_int, get_env_seconds, get_env_bool, default_controller_id,
}
use redis_replication_contro.Config.Load.{load_parsed, assemble, load}
use redis_replication_contro.Config.Namespaces.{parse_namespaces}

-- No variable is set.
abbrev pub empty_env : Env
empty_env = λ key. none

-- The configuration of the defaults.
abbrev pub default_config : Config
default_config = record {
  redis_namespace = codes "default";
  redis_namespaces = codes "default" ∷ [];
  redis_pod_label_selector = codes "app=redis";
  redis_port = pos 6379;
  redis_write_service_name = codes "redis-write";
  reconcile_interval = pos 10000000000;
  master_failure_threshold = pos 15000000000;
  redis_connect_timeout = pos 2000000000;
  redis_command_timeout = pos 2000000000;
  controller_id = codes "pod-a";
  enable_leader_election = true;
  lease_name = codes "redis-replication-controller";
  lease_namespace = codes "default";
  initial_master_strategy = codes "lowest-pod-ordinal";
  redis_set_label_key = codes "redis-set";
  default_set_name = codes "default";
  probe_concurrency = pos 16;
  config_rewrite = false;
  health_probe_addr = codes ":8081";
}

pub loaded : load empty_env (some (codes "pod-a")) ≡ ok default_config
unfolding load load_parsed assemble wrap64 get_env_int get_env_seconds get_env_bool parse_namespaces
    to_lower get_env default_controller_id validate is_strategy split trim_space bytes_eq
loaded = refl
