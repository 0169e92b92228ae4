-- ===== src/Config/Tests.antt =====
-- The loading of the configuration on concrete environments.
use redis_replication_contro.Base.{◌*◌, ◌^◌, ◌≤◌, ◌≡◌, ◌↔◌, refl, some}
use redis_replication_contro.Base.Int.{pos}
use redis_replication_contro.Base.Result.{ok}
use redis_replication_contro.Base.Bytes.{codes, bytes_eq, trim_space}
use redis_replication_contro.Config.{is_strategy, validate}
use redis_replication_contro.Config.Env.{get_env, seconds}
use redis_replication_contro.Config.Samples.{empty_env, default_config, loaded}
use redis_replication_contro.Config.Valid.{IsValid, load-IsValid, validate_iff, seconds_exact}

default_validated : validate default_config ≡ ok tt
unfolding validate is_strategy trim_space bytes_eq
default_validated = refl

load-IsValid_example :
    IsValid default_config
    × (default_config.lease_namespace
        ≡ get_env empty_env (codes "LEASE_NAMESPACE") (codes "default"))
load-IsValid_example = load-IsValid empty_env (some (codes "pod-a")) default_config loaded

validate_iff_example : (validate default_config ≡ ok tt) ↔ IsValid default_config
validate_iff_example = validate_iff default_config

seconds_exact_example :
    (seconds (codes "RECONCILE_INTERVAL_SECONDS") (pos 30) ≡ ok (pos (30 * 10 ^ 9)))
    ↔ (30 ≤ 9223372036)
seconds_exact_example = seconds_exact (codes "RECONCILE_INTERVAL_SECONDS") 30
