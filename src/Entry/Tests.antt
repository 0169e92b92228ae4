-- ===== src/Entry/Tests.antt =====
-- A start without variables.
use redis_replication_contro.Base.{◌≡◌, refl, true, some, if◌then◌else◌}
use redis_replication_contro.Base.Result.{ok}
use redis_replication_contro.Base.Bytes.{codes}
use redis_replication_contro.Config.Samples.{empty_env, default_config, loaded}
use redis_replication_contro.Config.Valid.{IsValid}
use redis_replication_contro.Leader.{election_config, IsElectable}
use redis_replication_contro.Entry.{Platform, elected, alone, connect, main, serve_health}
use redis_replication_contro.Entry.Starts.{main_starts}

abbrev platform : Platform
platform = record {
  env = empty_env;
  hostname = some (codes "pod-a");
  has_cluster_config = true;
  has_client = true;
}

started : main platform ≡ ok (elected default_config)
unfolding main connect
started = rw loaded refl

main_starts_example :
    let c = default_config in
    IsValid c
    × ((platform.has_cluster_config ≡ true) × (platform.has_client ≡ true))
    × (serve_health c.health_probe_addr ≡ some c.health_probe_addr)
    × IsElectable (election_config c)
    × (elected c ≡ (if c.enable_leader_election then elected c else alone c))
main_starts_example = main_starts platform (elected default_config) started
