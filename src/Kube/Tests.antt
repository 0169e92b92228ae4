-- ===== src/Kube/Tests.antt =====
-- The listing of the pods and their names on concrete inputs.
use mathlib.Core.List.{Perm}
use redis_replication_contro.Base.{◌≡◌, refl, none, some, List, [], ◌∷◌, if◌then◌else◌}
use redis_replication_contro.Base.Result.{ok, err}
use redis_replication_contro.Base.Bytes.{Bytes, codes, bytes_eq}
use redis_replication_contro.Kube.Pods.{Pod, ApiPod, Listing, list_failed, list_redis_pods, to_pod}
use redis_replication_contro.Kube.Pods.Order.{AreOrdered}
use redis_replication_contro.Kube.Pods.Listed.{
  pods_of, list_redis_pods-IsSorted, list_redis_pods_fails,
}

abbrev api_pod : Bytes → Bytes → ApiPod
api_pod name ip = record {
  name = name;
  namespace = codes "default";
  labels = [];
  annotations = [];
  pod_ip = ip;
  phase = codes "Running";
  conditions = [];
}

abbrev test_answer : Bytes → List ApiPod
test_answer ns =
    api_pod (codes "redis-10") (codes "10.0.0.2")
    ∷ api_pod (codes "redis-9") (codes "10.0.0.1")
    ∷ []

-- Only the namespace "default" can be listed.
abbrev test_listing : Listing
test_listing ns selector = if bytes_eq ns (codes "default") then some (test_answer ns) else none

default_listed :
    test_listing (codes "default") (codes "app=redis") ≡ some (test_answer (codes "default"))
unfolding bytes_eq
default_listed = refl

other_refused : test_listing (codes "other") (codes "app=redis") ≡ none
unfolding bytes_eq
other_refused = refl

list_redis_pods-IsSorted_example :
    (pods : List Pod) × (list_redis_pods test_listing (codes "default" ∷ []) (codes "app=redis")
      ≡ ok pods)
    × Perm pods (pods_of test_answer (codes "default" ∷ []))
    × AreOrdered pods
list_redis_pods-IsSorted_example =
    list_redis_pods-IsSorted test_listing test_answer (codes "app=redis") (codes "default" ∷ [])
      (default_listed, tt)

list_redis_pods_fails_example :
    list_redis_pods test_listing
      (codes "default" ∷ codes "other" ∷ codes "default" ∷ [])
      (codes "app=redis")
    ≡ err (list_failed (codes "other") (codes "app=redis"))
list_redis_pods_fails_example =
    list_redis_pods_fails test_listing test_answer (codes "app=redis") (codes "default" ∷ [])
      (codes "default" ∷ []) (codes "other") (default_listed, tt) other_refused

abbrev found_pod : Pod
found_pod = to_pod (api_pod (codes "redis-0") (codes "1"))
