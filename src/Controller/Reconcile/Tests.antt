-- ===== src/Controller/Reconcile/Tests.antt =====
-- Ticks of a set of two replicas whose master has gone, and of one with two masters.
use mathlib.Core.List.{reverse}
use redis_replication_contro.Base.{
  ◌≡◌, ◌≢◌, refl, ◌⊎◌, true, false, none, some, [], ◌∷◌, ◌++◌, map, keep_if, All, In,
}
use redis_replication_contro.Base.Int.{pos, ◌≤ℤ◌}
use redis_replication_contro.Base.Result.{ok}
use redis_replication_contro.Base.Sort.{sort_by}
use redis_replication_contro.Base.Bytes.{codes, bytes_eq}
use redis_replication_contro.Redis.Info.{is_master}
use redis_replication_contro.Kube.Pods.{to_pod, list_redis_pods}
use redis_replication_contro.Config.{strategy_lowest_pod_ordinal}
use redis_replication_contro.Controller.Select.{PodInfo, select_bootstrap_candidate}
use redis_replication_contro.Controller.Select.Failover.{IsChoice}
use redis_replication_contro.Controller.Reconcile.Isolated.{reconcile_isolates}
use redis_replication_contro.Controller.Sets.{
  Sets, state_or_new, lookup, group_by_set, has_key, key_eq, key_of,
}
use redis_replication_contro.Controller.World.{Env, Trace}
use redis_replication_contro.Controller.Failover.{address}
use redis_replication_contro.Controller.Reconcile.{
  reconcile, masters_of, replicas_of, pick_master, probe_pod, probe, sync_labels, reconcile_set,
}
use redis_replication_contro.Controller.Reconcile.Labels.{
  label_patch, is_mislabeled, sync_labels-patches,
}
use redis_replication_contro.Controller.Reconcile.Promotions.{promotions}
use redis_replication_contro.Controller.Reconcile.Waits.{
  elapsed, reached_by, probed_by, reconcile_set-promotes,
}
use redis_replication_contro.Controller.Reconcile.Elects.{
  followers, told, IsLabelled, pick_master-choice, reconcile_set-redirects,
}
use redis_replication_contro.Controller.Reconcile.Outcomes.{present, Misses, reconcile_set-outcome}
use redis_replication_contro.Controller.Samples.{
  test_config, first_pod, second_pod, two_pods, info_of, test_env, test_api_pod, missing_state,
  default_key,
}

two_masters :
    masters_of (probe test_config two_pods (test_env (codes "master")) []).0
    ≡ info_of (codes "master") first_pod ∷ info_of (codes "master") second_pod ∷ []
unfolding probe probe_pod is_master bytes_eq
two_masters = refl

reconcile_set-promotes_example :
    let env = test_env (codes "slave") in
    (promotions (reconcile_set test_config two_pods missing_state env []).1 ≡ [])
    ⊎ ((b : PodInfo) × (masters_of (reached_by test_config env two_pods []) ≡ [])
        × (pos 15 ≤ℤ elapsed env (some 3) (probed_by test_config env two_pods []))
        × IsChoice b (replicas_of (reached_by test_config env two_pods []))
        × (promotions (reconcile_set test_config two_pods missing_state env []).1
            ≡ address b.pod.ip (pos 6379) ∷ []))
reconcile_set-promotes_example =
    reconcile_set-promotes test_config (test_env (codes "slave")) two_pods missing_state []

pick_master-choice_example :
    let m = info_of (codes "master") first_pod in
    let n = info_of (codes "master") second_pod in
    let b = pick_master strategy_lowest_pod_ordinal m (n ∷ []) in
    In b (m ∷ n ∷ [])
    × (IsLabelled b.pod
        ⊎ (All (λ x. ¬ IsLabelled x.pod) (m ∷ n ∷ [])
            × (select_bootstrap_candidate strategy_lowest_pod_ordinal (m ∷ n ∷ []) ≡ some b)))
pick_master-choice_example =
    pick_master-choice strategy_lowest_pod_ordinal (info_of (codes "master") first_pod)
      (info_of (codes "master") second_pod ∷ [])

reconcile_set-redirects_example :
    let env = test_env (codes "master") in
    let m = info_of (codes "master") first_pod in
    let n = info_of (codes "master") second_pod in
    let b = pick_master strategy_lowest_pod_ordinal m (n ∷ []) in
    followers (reconcile_set test_config two_pods missing_state env []).1
    ≡ reverse (told test_config env b.pod.name b.pod.ip (m ∷ n ∷ [])) ++ []
reconcile_set-redirects_example =
    reconcile_set-redirects test_config (test_env (codes "master")) two_pods missing_state []
      (info_of (codes "master") first_pod) (info_of (codes "master") second_pod) [] (λ t e. refl)
      two_masters

sync_labels-patches_example :
    (sync_labels (codes "redis-0") two_pods (test_env (codes "slave")) []).1
    ≡ reverse
        (map (label_patch (codes "redis-0")) (keep_if (is_mislabeled (codes "redis-0")) two_pods))
      ++ []
sync_labels-patches_example =
    sync_labels-patches (test_env (codes "slave")) (codes "redis-0") two_pods []

abbrev one_pod_env : Env
one_pod_env = record (test_env (codes "slave")) {
  listing = λ t ns selector. some (test_api_pod ∷ []);
}

one_listed :
    list_redis_pods
      (λ ns selector. some (test_api_pod ∷ []))
      test_config.redis_namespaces
      test_config.redis_pod_label_selector
    ≡ ok (to_pod test_api_pod ∷ [])
unfolding list_redis_pods sort_by
one_listed = refl

reconcile_isolates_example :
    let pods = to_pod test_api_pod ∷ [] in
    let sets : Sets = (default_key, missing_state) ∷ [] in
    let own =
      keep_if (λ p. key_eq (key_of (codes "redis-set") (codes "default") p) default_key) pods in
    let after = lookup (reconcile test_config sets one_pod_env []).0.1 default_key in
    let present = has_key (group_by_set pods (codes "redis-set") (codes "default")) default_key in
    ((present ≡ true)
      × (t' : Trace) × (after
          ≡ some
              (reconcile_set test_config own
                (state_or_new (lookup sets default_key))
                one_pod_env
                t').0.1))
    ⊎ ((present ≡ false) × (after ≡ none))
reconcile_isolates_example =
    reconcile_isolates test_config one_pod_env ((default_key, missing_state) ∷ []) []
      (to_pod test_api_pod ∷ []) default_key one_listed

reconcile_set-outcome_example :
    let env = test_env (codes "slave") in
    let reached = reached_by test_config env two_pods [] in
    let r = reconcile_set test_config two_pods missing_state env [] in
    ((masters_of reached ≢ []) × (r.0 ≡ (ok tt, present missing_state)))
    ⊎ ((masters_of reached ≡ [])
        × Misses test_config env two_pods
            (replicas_of reached)
            missing_state
            (probed_by test_config env two_pods [])
            r)
reconcile_set-outcome_example =
    reconcile_set-outcome test_config (test_env (codes "slave")) two_pods missing_state []
