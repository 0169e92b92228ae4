-- ===== src/Controller/Samples.antt =====
-- Pods, reports, environments and states on which the tests run.
use redis_replication_contro.Base.{ℕ, true, false, none, some, List, [], ◌∷◌}
use redis_replication_contro.Base.Int.{pos}
use redis_replication_contro.Base.Bytes.{Bytes, codes}
use redis_replication_contro.Strconv.{format_int}
use redis_replication_contro.Redis.Info.{ReplicationInfo}
use redis_replication_contro.Kube.Pods.{ApiPod, Pod, StringMap, label_role}
use redis_replication_contro.Config.{
  Config, annotation_failover_epoch, annotation_preferred_master, strategy_lowest_pod_ordinal,
}
use redis_replication_contro.Controller.Select.{PodInfo}
use redis_replication_contro.Controller.Sets.{SetKey, SetState}
use redis_replication_contro.Controller.World.{Env}

abbrev pub test_config : Config
test_config = record {
  redis_namespace = codes "default";
  redis_namespaces = codes "default" ∷ [];
  redis_pod_label_selector = codes "app=redis";
  redis_port = pos 6379;
  redis_write_service_name = codes "redis-write";
  reconcile_interval = pos 10;
  master_failure_threshold = pos 15;
  redis_connect_timeout = pos 2;
  redis_command_timeout = pos 2;
  controller_id = codes "a";
  enable_leader_election = true;
  lease_name = codes "lease";
  lease_namespace = codes "default";
  initial_master_strategy = strategy_lowest_pod_ordinal;
  redis_set_label_key = codes "redis-set";
  default_set_name = codes "default";
  probe_concurrency = pos 16;
  config_rewrite = false;
  health_probe_addr = codes ":8081";
}

abbrev pub test_pod : Bytes → Bytes → ℕ → StringMap → StringMap → Pod
test_pod name ip ordinal labels annotations = record {
  name = name;
  namespace = codes "default";
  ip = ip;
  ordinal = pos ordinal;
  phase = codes "Running";
  ready = true;
  labels = labels;
  annotations = annotations;
}

abbrev pub first_pod : Pod
first_pod =
    test_pod (codes "redis-0") (codes "10.0.0.1") 0 []
      ((annotation_failover_epoch, format_int (pos 4)) ∷ [])

abbrev pub second_pod : Pod
second_pod =
    test_pod (codes "redis-1") (codes "10.0.0.2") 1 ((label_role, codes "master") ∷ [])
      ((annotation_preferred_master, codes "true") ∷ [])

abbrev pub two_pods : List Pod
two_pods = first_pod ∷ second_pod ∷ []

abbrev pub test_info : Bytes → ℕ → ReplicationInfo
test_info role offset = record {
  role = role;
  connected_slaves = pos 0;
  master_host = [];
  master_port = pos 0;
  master_link_status = codes "up";
  master_repl_offset = pos offset;
  slave_repl_offset = pos offset;
}

abbrev pub info_of : Bytes → Pod → PodInfo
info_of role pod = record { pod = pod; info = test_info role 7 }

-- Every call succeeds, every node reports the role, the clock stands at 100, and no listing succeeds.
abbrev pub test_env : Bytes → Env
test_env role = record {
  succeeds = λ t e. true;
  report = λ t addr. some (test_info role 7);
  listing = λ t ns selector. none;
  time = λ t. 100;
  stamp = λ t. codes "2026-01-01T00:00:00Z";
}

-- As `test_env`, but every namespace is empty.
abbrev pub listing_env : Env
listing_env = record (test_env (codes "slave")) { listing = λ t ns selector. some [] }

abbrev pub test_api_pod : ApiPod
test_api_pod = record {
  name = codes "redis-0";
  namespace = codes "default";
  pod_ip = codes "10.0.0.1";
  phase = codes "Running";
  conditions = [];
  labels = [];
  annotations = [];
}

abbrev pub missing_state : SetState
missing_state = record { master_missing_at = some 3; failover_epoch = pos 2 }

abbrev pub default_key : SetKey
default_key = record { namespace = codes "default"; name = codes "default" }
