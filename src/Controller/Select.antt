-- ===== src/Controller/Select.antt =====
-- The choice of a master: `selectBootstrapCandidate`, `selectFailoverCandidate`, `betterOrdinal`,
-- `labeledMaster` of internal/controller/controller.go.
pub mod Best
pub mod Failover
pub mod Bootstrap
use redis_replication_contro.Base.{
  Bool, true, false, not, ◌&&◌, ◌||◌, Option, none, some, List, [], ◌∷◌, if◌then◌else◌, keep_if,
}
use redis_replication_contro.Base.Int.{ℤ, pos, ltb_ℤ, eqb_ℤ}
use redis_replication_contro.Base.Bytes.{Bytes, codes, bytes_eq}
use redis_replication_contro.Kube.Pods.{Pod, get, has_master_label}
use redis_replication_contro.Redis.Info.{ReplicationInfo, offset}
use redis_replication_contro.Config.{
  annotation_preferred_master, strategy_annotation_preferred, strategy_lowest_pod_ordinal,
  strategy_first_healthy,
}

pub record PodInfo : Type 0 where
  pub pod : Pod
  pub info : ReplicationInfo

abbrev pub offset_of : PodInfo → ℤ
offset_of r = offset (some r.info)

unfoldable pub better_ordinal : ℤ → ℤ → Bool
better_ordinal a b = if ltb_ℤ a (pos 0) then false else if ltb_ℤ b (pos 0) then true else ltb_ℤ a b

-- The first element that passes a test.
unfoldable pub find_first : (PodInfo → Bool) → List PodInfo → Option PodInfo
find_first test [] = none
find_first test (r ∷ rs) = if test r then some r else find_first test rs

-- A loop that replaces the best element so far by each element that beats it.
unfoldable pub best_from : (PodInfo → PodInfo → Bool) → PodInfo → List PodInfo → PodInfo
best_from beats best [] = best
best_from beats best (r ∷ rs) = best_from beats (if beats r best then r else best) rs

unfoldable pub prefers : PodInfo → Bool
prefers r = bytes_eq (get r.pod.annotations annotation_preferred_master) (codes "true")

unfoldable pub lower_ordinal : PodInfo → PodInfo → Bool
lower_ordinal r best =
    not (ltb_ℤ r.pod.ordinal (pos 0))
    && (ltb_ℤ best.pod.ordinal (pos 0) || ltb_ℤ r.pod.ordinal best.pod.ordinal)

unfoldable pub higher_offset : PodInfo → PodInfo → Bool
higher_offset r best = ltb_ℤ (offset_of best) (offset_of r)

or_first : PodInfo → Option PodInfo → PodInfo
or_first r none = r
or_first r (some m) = m

-- The argument is INITIAL_MASTER_STRATEGY.
unfoldable pub select_bootstrap_candidate : Bytes → List PodInfo → Option PodInfo
unfolding find_first best_from prefers lower_ordinal higher_offset or_first
select_bootstrap_candidate strategy [] = none
select_bootstrap_candidate strategy (r ∷ rs) =
    if bytes_eq strategy strategy_annotation_preferred
    then some (or_first r (find_first prefers (r ∷ rs)))
    else if bytes_eq strategy strategy_lowest_pod_ordinal
    then some (best_from lower_ordinal r (r ∷ rs))
    else if bytes_eq strategy strategy_first_healthy
    then some r
    else some (best_from higher_offset r (r ∷ rs))

-- Only an explicit "down" counts as a broken link.
unfoldable pub link_up : PodInfo → Bool
link_up r = not (bytes_eq r.info.master_link_status (codes "down"))

unfoldable pub linked : List PodInfo → List PodInfo
unfolding link_up
linked rs = keep_if link_up rs

unfoldable pub outranks : PodInfo → PodInfo → Bool
unfolding better_ordinal
outranks r best =
    ltb_ℤ (offset_of best) (offset_of r)
    || (eqb_ℤ (offset_of r) (offset_of best) && better_ordinal r.pod.ordinal best.pod.ordinal)

best_of : List PodInfo → Option PodInfo
best_of [] = none
best_of (r ∷ rs) = some (best_from outranks r (r ∷ rs))

or_all : List PodInfo → List PodInfo → List PodInfo
or_all all [] = all
or_all all (r ∷ rs) = r ∷ rs

unfoldable pub select_failover_candidate : List PodInfo → Option PodInfo
unfolding best_of or_all linked
select_failover_candidate replicas = best_of (or_all replicas (linked replicas))

unfoldable pub labeled_master : List PodInfo → Option PodInfo
labeled_master [] = none
labeled_master (m ∷ ms) = if has_master_label m.pod then some m else labeled_master ms
