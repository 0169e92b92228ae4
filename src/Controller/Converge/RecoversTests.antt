-- ===== src/Controller/Converge/RecoversTests.antt =====
-- A replica whose master is lost, on a clock that moves with every event.
use redis_replication_contro.Base.{◌≢◌, refl, List, [], ◌∷◌, arith, length}
use redis_replication_contro.Base.Int.{sub_ℕ, ◌≤ℤ◌, pos}
use redis_replication_contro.Base.Bytes.{bytes_eq, codes, has_prefix}
use redis_replication_contro.Redis.Info.{is_master}
use redis_replication_contro.Controller.Sets.{new_state}
use redis_replication_contro.Controller.World.{Env}
use redis_replication_contro.Controller.Reconcile.{
  is_probed, probe, probe_pod, reconcile_set, with_masters, no_master, missing_since,
}
use redis_replication_contro.Controller.Reconcile.Waits.{probed_by}
use redis_replication_contro.Controller.Samples.{test_config, two_pods}
use redis_replication_contro.Controller.Converge.{Reports, Outages}
use redis_replication_contro.Controller.Failover.{address}
use redis_replication_contro.Controller.Converge.Samples.{
  second_master, without, only_without, obedient, obedient-Reports, two_pods-OneAddressEach,
}
use redis_replication_contro.Controller.Converge.Nodes.{Node, nodes, IsListing, HasOne, HasNone}
use redis_replication_contro.Controller.Converge.Recovers.{visits, visits-HasOne_in_time}

abbrev moving_env : Env
moving_env = without (codes "10.0.0.2") (record (obedient second_master) { time = λ t. length t })

abbrev second_lost : Outages moving_env
second_lost =
    only_without (codes "10.0.0.2") (record (obedient second_master) { time = λ t. length t })

moving_env-Reports : Reports second_master moving_env
moving_env-Reports = record { role = (obedient-Reports second_master).role }

abbrev up_nodes : List Node
up_nodes = nodes moving_env second_lost test_config two_pods

two_pods-IsListing : IsListing test_config moving_env second_lost up_nodes two_pods
two_pods-IsListing = record {
  same = refl;
  one = two_pods-OneAddressEach;
  answers = record { answer = λ p t m h. (_, refl) };
}

up_some : up_nodes ≢ []
unfolding is_probed address bytes_eq has_prefix
up_some e = cc

up_none : HasNone test_config moving_env second_master up_nodes []
unfolding is_probed address bytes_eq has_prefix
up_none = (refl, tt)

up_waited :
    let moment = moving_env.time (probed_by test_config moving_env two_pods []) in
    let (st', t') =
      visits test_config (two_pods ∷ two_pods ∷ two_pods ∷ []) new_state moving_env [] in
    pos 15 ≤ℤ sub_ℕ (moving_env.time (probed_by test_config moving_env two_pods t')) moment
unfolding address has_prefix visits reconcile_set with_masters no_master missing_since probe
    probe_pod is_probed is_master bytes_eq
up_waited = omega arith

visits-HasOne_in_time_example :
    let (st', t') =
      visits test_config (two_pods ∷ two_pods ∷ two_pods ∷ []) new_state moving_env [] in
    HasOne test_config moving_env second_master up_nodes
      (visits test_config (two_pods ∷ two_pods ∷ []) st' moving_env t').1
visits-HasOne_in_time_example =
    visits-HasOne_in_time test_config moving_env second_master up_nodes two_pods two_pods
      (two_pods ∷ two_pods ∷ []) (two_pods ∷ []) new_state [] second_lost moving_env-Reports up_some
      (two_pods-IsListing, (two_pods-IsListing, (two_pods-IsListing, (two_pods-IsListing, tt))))
      (two_pods-IsListing, tt) up_none refl up_waited
