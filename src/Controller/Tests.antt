-- ===== src/Controller/Tests.antt =====
-- The choice of a master, the sets, the epochs and the readiness on concrete inputs.
use redis_replication_contro.Base.{◌≡◌, refl, some, map, arith, keep_if, In, inl}
use redis_replication_contro.Base.Int.{ℤ, pos, max_int64, ◌<ℤ◌}
use redis_replication_contro.Base.Bytes.{codes, bytes_eq}
use redis_replication_contro.Strconv.{
  format_int, format_nat, atoi, parse_int, with_sign, parse_uint, scan,
}
use redis_replication_contro.Kube.Pods.{Pod, get}
use redis_replication_contro.Config.{annotation_failover_epoch}
use redis_replication_contro.Controller.Select.{PodInfo, select_failover_candidate}
use redis_replication_contro.Controller.Select.Failover.{
  IsChoice, select_failover_candidate-IsChoice,
}
use redis_replication_contro.Controller.Sets.{new_state, group, group_by_set, epoch_of, max_epoch}
use redis_replication_contro.Controller.Sets.Groups.{is_in_set, group-group_by_set}
use redis_replication_contro.Controller.Failover.{next_epoch}
use redis_replication_contro.Controller.Failover.Promotes.{
  next_epoch-above, next_epoch_after_restart,
}
use redis_replication_contro.Controller.Samples.{
  first_pod, two_pods, info_of, missing_state, default_key,
}

recorded_max : max_epoch two_pods <ℤ max_int64
unfolding max_epoch get bytes_eq format_int format_nat atoi parse_int with_sign parse_uint scan
recorded_max = omega arith

written : get first_pod.annotations annotation_failover_epoch ≡ format_int (pos 4)
unfolding get bytes_eq
written = refl

select_failover_candidate-IsChoice_example :
    (b : PodInfo) × (select_failover_candidate (map (info_of (codes "slave")) two_pods) ≡ some b)
    × IsChoice b (map (info_of (codes "slave")) two_pods)
select_failover_candidate-IsChoice_example =
    select_failover_candidate-IsChoice (map (info_of (codes "slave")) two_pods) (λ x. cc)

next_epoch-above_example :
    (pos 2 <ℤ next_epoch two_pods missing_state)
    × ((p : Pod) (n : ℤ)
        → In p two_pods
        → epoch_of p ≡ some n
        → n <ℤ next_epoch two_pods missing_state)
next_epoch-above_example =
    next_epoch-above two_pods missing_state (omega arith) (omega arith) recorded_max

next_epoch_after_restart_example : pos 4 <ℤ next_epoch two_pods new_state
next_epoch_after_restart_example =
    next_epoch_after_restart two_pods first_pod (pos 4) (inl refl) written (omega arith)
      recorded_max

group-group_by_set_example :
    group (group_by_set two_pods (codes "redis-set") (codes "default")) default_key
    ≡ keep_if (is_in_set (codes "redis-set") (codes "default") default_key) two_pods
group-group_by_set_example =
    group-group_by_set two_pods (codes "redis-set") (codes "default") default_key
