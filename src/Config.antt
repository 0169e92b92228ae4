-- ===== src/Config.antt =====
-- internal/config/config.go: the resolved configuration and its validation. A `time.Duration` is a
-- number of nanoseconds, an `int64`.
pub mod Samples
mod Tests
pub mod Namespaces
pub mod Env
pub mod Load
pub mod Valid
use redis_replication_contro.Base.{
  ℕ, ◌*◌, ◌^◌, Bool, true, false, ◌||◌, not, List, [], ◌∷◌, if◌then◌else◌,
}
use redis_replication_contro.Base.Int.{ℤ, pos, ltb_ℤ, wrap64}
use redis_replication_contro.Base.Result.{Result, ok, err, ◌>>=◌, ◌>>◌}
use redis_replication_contro.Base.Bytes.{Bytes, codes, bytes_eq, is_empty, trim_space}

abbrev pub annotation_preferred_master : Bytes
annotation_preferred_master = codes "redis-controller/preferred-master"

abbrev pub annotation_failover_epoch : Bytes
annotation_failover_epoch = codes "redis-controller/failover-epoch"

abbrev pub annotation_promoted_at : Bytes
annotation_promoted_at = codes "redis-controller/promoted-at"

abbrev pub strategy_first_healthy : Bytes
strategy_first_healthy = codes "first-healthy"

abbrev pub strategy_lowest_pod_ordinal : Bytes
strategy_lowest_pod_ordinal = codes "lowest-pod-ordinal"

abbrev pub strategy_annotation_preferred : Bytes
strategy_annotation_preferred = codes "annotation-preferred"

pub record Config : Type 0 where
  pub redis_namespace : Bytes
  pub redis_namespaces : List Bytes
  pub redis_pod_label_selector : Bytes
  pub redis_port : ℤ
  pub redis_write_service_name : Bytes
  pub reconcile_interval : ℤ
  pub master_failure_threshold : ℤ
  pub redis_connect_timeout : ℤ
  pub redis_command_timeout : ℤ
  pub controller_id : Bytes
  pub enable_leader_election : Bool
  pub lease_name : Bytes
  pub lease_namespace : Bytes
  pub initial_master_strategy : Bytes
  pub redis_set_label_key : Bytes
  pub default_set_name : Bytes
  pub probe_concurrency : ℤ
  pub config_rewrite : Bool
  pub health_probe_addr : Bytes

pub data ConfigError : Type 0 where
  invalid_integer negative invalid_boolean : Bytes → ConfigError
  port_out_of_range : ℤ → ConfigError
  empty_selector empty_namespace no_namespaces empty_set_label_key empty_default_set_name :
      ConfigError
  low_probe_concurrency no_reconcile_interval no_command_timeout : ConfigError
  invalid_strategy : Bytes → ConfigError

-- An error unless the test passes.
abbrev pub require : Bool → ConfigError → Result ConfigError (Unit {0})
require true e = ok tt
require false e = err e

abbrev pub is_blank : Bytes → Bool
is_blank s = is_empty (trim_space s)

abbrev pub is_nil : List Bytes → Bool
is_nil [] = true
is_nil (x ∷ xs) = false

unfoldable pub is_strategy : Bytes → Bool
is_strategy s =
    bytes_eq s strategy_first_healthy
    || bytes_eq s strategy_lowest_pod_ordinal
    || bytes_eq s strategy_annotation_preferred

unfoldable pub validate : Config → Result ConfigError (Unit {0})
validate c = do
  require (not (ltb_ℤ c.redis_port (pos 1) || ltb_ℤ (pos 65535) c.redis_port))
      (port_out_of_range c.redis_port)
  require (not (is_blank c.redis_pod_label_selector)) empty_selector
  require (not (is_blank c.redis_namespace)) empty_namespace
  require (not (is_nil c.redis_namespaces)) no_namespaces
  require (not (is_blank c.redis_set_label_key)) empty_set_label_key
  require (not (is_blank c.default_set_name)) empty_default_set_name
  require (not (ltb_ℤ c.probe_concurrency (pos 1))) low_probe_concurrency
  require (is_strategy c.initial_master_strategy) (invalid_strategy c.initial_master_strategy)
  require (ltb_ℤ (pos 0) c.reconcile_interval) no_reconcile_interval
  require (ltb_ℤ (pos 0) c.redis_command_timeout) no_command_timeout
