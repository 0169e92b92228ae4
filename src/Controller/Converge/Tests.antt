-- ===== src/Controller/Converge/Tests.antt =====
-- Ticks of a set whose master is lost, and of one whose master is there.
use redis_replication_contro.Base.{◌≡◌, ◌≢◌, refl, inl, inr, none, [], All, arith, if◌then◌else◌}
use redis_replication_contro.Base.Result.{ok}
use redis_replication_contro.Base.Bytes.{Bytes, codes, bytes_eq, has_prefix}
use redis_replication_contro.Kube.Pods.{role_label, get}
use redis_replication_contro.Controller.Failover.{address}
use redis_replication_contro.Controller.Select.{PodInfo}
use redis_replication_contro.Controller.Sets.{new_state}
use redis_replication_contro.Controller.Reconcile.{wanted_role, probe, probe_pod, reconcile_set}
use redis_replication_contro.Controller.Reconcile.Promotions.{promotions}
use redis_replication_contro.Controller.Reconcile.Elects.{followers}
use redis_replication_contro.Controller.Reconcile.Waits.{reached_by}
use redis_replication_contro.Controller.Samples.{
  missing_state, test_config, second_pod, two_pods, info_of,
}
use redis_replication_contro.Controller.Converge.{AllObey, Reports, label_after}
use redis_replication_contro.Controller.Converge.Samples.{
  second_master, lost_env, obedient, obedient-Reports, two_pods-OneAddressEach,
}
use redis_replication_contro.Controller.Converge.Ends.{IsSoleMaster}
use redis_replication_contro.Controller.Converge.OneMaster.{reconcile_set-one_master}
use redis_replication_contro.Controller.Converge.Stays.{reconcile_set-stays}

abbrev two_labels : Bytes → Bytes → Bytes
two_labels ns name = if bytes_eq name (codes "redis-1") then codes "master" else []

two_shown : All (λ p. label_after two_labels [] p.namespace p.name ≡ role_label p) two_pods
unfolding role_label get bytes_eq
two_shown = (refl, (refl, tt))

lost_env-Reports : Reports second_master lost_env
lost_env-Reports = record { role = (obedient-Reports second_master).role }

lost_env-AllObey : AllObey test_config lost_env (reached_by test_config lost_env two_pods [])
unfolding probe probe_pod address bytes_eq has_prefix
lost_env-AllObey =
    (record { dials = λ t. refl; promotes = λ t. refl; follows = λ t host port. refl }, tt)

lost_env_reached : reached_by test_config lost_env two_pods [] ≢ []
unfolding probe probe_pod address bytes_eq has_prefix
lost_env_reached e = cc

reconcile_set-one_master_example :
    let r = reconcile_set test_config two_pods missing_state lost_env [] in
    (r.0.0 ≡ ok tt)
    × (r.0.1.master_missing_at ≡ none)
    × ((b : PodInfo) × IsSoleMaster test_config second_master
          (reached_by test_config lost_env two_pods [])
          b
          r.1
        × All
            (λ p. label_after two_labels r.1 p.namespace p.name ≡ wanted_role b.pod.name p)
            two_pods)
reconcile_set-one_master_example =
    reconcile_set-one_master test_config lost_env second_master two_labels two_pods missing_state []
      lost_env-AllObey lost_env-Reports two_pods-OneAddressEach two_shown lost_env_reached
      (inr (omega arith))

second_sole :
    IsSoleMaster test_config second_master
      (reached_by test_config (obedient second_master) two_pods [])
      (info_of (codes "master") second_pod)
      []
unfolding probe probe_pod address bytes_eq has_prefix
second_sole = (inr (inl refl), (refl, (refl, tt)))

reconcile_set-stays_example :
    let t' = (reconcile_set test_config two_pods new_state (obedient second_master) []).1 in
    (followers t' ≡ []) × (promotions t' ≡ [])
reconcile_set-stays_example =
    reconcile_set-stays test_config (obedient second_master) second_master two_pods new_state []
      (info_of (codes "master") second_pod) (obedient-Reports second_master) second_sole
