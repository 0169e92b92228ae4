-- ===== src/Kube/Pods/Listed.antt =====
-- What `ListRedisPods` returns.
use mathlib.Core.List.{Perm}
use redis_replication_contro.Base.{
  ◌≡◌, refl, none, some, List, [], ◌∷◌, ◌++◌, map, arith, All, All-append,
}
use redis_replication_contro.Base.Result.{ok, err}
use redis_replication_contro.Base.Bytes.{Bytes}
use redis_replication_contro.Base.Sort.{
  IsOrder, sort_by, sort_by-All, sort_by-IsSorted, sort_by-perm,
}
use redis_replication_contro.Kube.Pods.{
  Pod, ApiPod, to_pod, pod_less, Listing, list_failed, collect_pods, list_redis_pods,
}
use redis_replication_contro.Kube.Pods.Order.{
  AreOrdered, sorted-AreOrdered, HasOrdinal, pod_less_asym, pod_less_trans,
}
use redis_replication_contro.Kube.Pods.Ordinal.{ordinal_from_name-IsOrdinal}

pod_less-IsOrder : IsOrder HasOrdinal pod_less
pod_less-IsOrder = record { asym = pod_less_asym; trans = pod_less_trans }

-- The pods that the answers hold, namespace by namespace.
abbrev pub pods_of : (Bytes → List ApiPod) → List Bytes → List Pod
pods_of answer [] = []
pods_of answer (ns ∷ rest) = map to_pod (answer ns) ++ pods_of answer rest

module _ (list : Listing) (answer : Bytes → List ApiPod) (selector : Bytes) where
  abbrev pub Answers : Bytes → Type 0
  Answers ns = list ns selector ≡ some (answer ns)

  collect_pods-pods_of :
      (nss : List Bytes)
      → All Answers nss
      → collect_pods list nss selector ≡ ok (pods_of answer nss)
  unfolding collect_pods
  collect_pods-pods_of [] h = refl
  collect_pods-pods_of (ns ∷ rest) (h, hs) = ground (arith, collect_pods-pods_of rest hs)

  collect_pods_fails :
      (before after : List Bytes) (ns : Bytes)
      → All Answers before
      → list ns selector ≡ none
      → collect_pods list (before ++ ns ∷ after) selector ≡ err (list_failed ns selector)
  unfolding collect_pods
  collect_pods_fails [] after ns h e = ground arith
  collect_pods_fails (b ∷ before) after ns (h, hs) e =
      ground (arith, collect_pods_fails before after ns hs e)

map-HasOrdinal : (ps : List ApiPod) → All HasOrdinal (map to_pod ps)
unfolding to_pod
map-HasOrdinal [] = tt
map-HasOrdinal (p ∷ ps) = (ordinal_from_name-IsOrdinal p.name, map-HasOrdinal ps)

pods_of-HasOrdinal :
    (answer : Bytes → List ApiPod) (nss : List Bytes) → All HasOrdinal (pods_of answer nss)
pods_of-HasOrdinal answer [] = tt
pods_of-HasOrdinal answer (ns ∷ rest) =
    All-append HasOrdinal (map to_pod (answer ns)) (pods_of answer rest)
      (map-HasOrdinal (answer ns)) (pods_of-HasOrdinal answer rest)

-- When the API answers for every namespace, the result holds exactly the answered pods, each as often as
-- it was answered, and each pod stands before all later ones (`Before`):
-- it is of a lower namespace; or of the same one, and its ordinal is known and the other's is unknown
-- or higher; or of the same namespace and ordinal, and its name is not above the other's.
pub list_redis_pods-IsSorted :
    (list : Listing) (answer : Bytes → List ApiPod) (selector : Bytes) (nss : List Bytes)
    → All (Answers list answer selector) nss
    → (pods : List Pod) × (list_redis_pods list nss selector ≡ ok pods)
      × Perm pods (pods_of answer nss)
      × AreOrdered pods
unfolding list_redis_pods
list_redis_pods-IsSorted list answer selector nss h = (
  sort_by pod_less (pods_of answer nss),
  ground (arith, collect_pods-pods_of list answer selector nss h),
  sort_by-perm pod_less (pods_of answer nss),
  sorted-AreOrdered (sort_by pod_less (pods_of answer nss))
      (sort_by-All HasOrdinal pod_less pod_less-IsOrder (pods_of answer nss) known)
      (sort_by-IsSorted HasOrdinal pod_less pod_less-IsOrder (pods_of answer nss) known),
)
  where
    known : All HasOrdinal (pods_of answer nss)
    known = pods_of-HasOrdinal answer nss

-- The first namespace whose listing fails makes the whole call fail with an error that names it, whatever
-- the namespaces behind it would answer.
pub list_redis_pods_fails :
    (list : Listing) (answer : Bytes → List ApiPod) (selector : Bytes) (before after : List Bytes)
    (ns : Bytes)
    → All (Answers list answer selector) before
    → list ns selector ≡ none
    → list_redis_pods list (before ++ ns ∷ after) selector ≡ err (list_failed ns selector)
unfolding list_redis_pods
list_redis_pods_fails list answer selector before after ns h e =
    ground (arith, collect_pods_fails list answer selector before after ns h e)
