-- ===== src/Kube/Pods.antt =====
-- internal/kubernetes/pods.go. A Go map from strings to strings is an association list whose first entry
-- for a key counts; the client-go calls are arguments.
pub mod Order
pub mod Ordinal
pub mod Listed
pub mod Find
use redis_replication_contro.Base.{
  ℕ, Bool, true, false, not, Option, none, some, List, [], ◌∷◌, ◌++◌, map, if◌then◌else◌,
}
use redis_replication_contro.Base.Int.{ℤ, pos, negsuc, ltb_ℤ, eqb_ℤ}
use redis_replication_contro.Base.Result.{Result, ok, err}
use redis_replication_contro.Base.Bytes.{Bytes, codes, bytes_eq, bytes_lt, is_empty, after_last}
use redis_replication_contro.Base.Sort.{sort_by}
use redis_replication_contro.Strconv.{atoi}

abbrev pub StringMap : Type 0
StringMap = List (Bytes × Bytes)

-- `m[k]`, which is "" for a missing key.
unfoldable pub get : StringMap → Bytes → Bytes
get [] k = []
get ((j, v) ∷ m) k = if bytes_eq j k then v else get m k

abbrev pub label_role : Bytes
label_role = codes "redis-current-role"

abbrev pub role_master : Bytes
role_master = codes "master"

abbrev pub role_replica : Bytes
role_replica = codes "replica"

pub record Pod : Type 0 where
  pub name : Bytes
  pub namespace : Bytes
  pub ip : Bytes
  pub ordinal : ℤ
  pub phase : Bytes
  pub ready : Bool
  pub labels : StringMap
  pub annotations : StringMap

unfoldable pub role_label : Pod → Bytes
unfolding get
role_label p = get p.labels label_role

unfoldable pub set_name : Pod → Bytes → Bytes → Bytes
set_name p key def = let v = get p.labels key in if is_empty v then def else v

unfoldable pub has_master_label : Pod → Bool
has_master_label p = bytes_eq (get p.labels label_role) role_master

-- The trailing integer of a StatefulSet pod's name, -1 if there is none.
unfoldable pub ordinal_of : Option ℤ → ℤ
ordinal_of none = negsuc 0
ordinal_of (some n) = n

unfoldable pub ordinal_from_name : Bytes → ℤ
unfolding ordinal_of
ordinal_from_name name = elim (after_last name b'-') [
  | none ↦ negsuc 0
  | some suffix ↦ if is_empty suffix then negsuc 0 else ordinal_of (atoi suffix)
]

unfoldable pub ordinal_less : ℤ → ℤ → Bool
ordinal_less a b = if ltb_ℤ a (pos 0) then false else if ltb_ℤ b (pos 0) then true else ltb_ℤ a b

-- The part of `corev1.Pod` that `toPod` reads.
pub record ApiCondition : Type 0 where
  pub kind : Bytes
  pub status : Bytes

pub record ApiPod : Type 0 where
  pub name : Bytes
  pub namespace : Bytes
  pub pod_ip : Bytes
  pub phase : Bytes
  pub conditions : List ApiCondition
  pub labels : StringMap
  pub annotations : StringMap

-- The first Ready condition decides.
unfoldable pub is_ready : List ApiCondition → Bool
is_ready [] = false
is_ready (c ∷ cs) =
    if bytes_eq c.kind (codes "Ready") then bytes_eq c.status (codes "True") else is_ready cs

unfoldable pub copy_map : StringMap → StringMap
copy_map [] = []
copy_map ((k, v) ∷ m) = (k, v) ∷ copy_map m

unfoldable pub to_pod : ApiPod → Pod
to_pod p = record {
  name = p.name;
  namespace = p.namespace;
  ip = p.pod_ip;
  ordinal = ordinal_from_name p.name;
  phase = p.phase;
  ready = is_ready p.conditions;
  labels = copy_map p.labels;
  annotations = copy_map p.annotations;
}

-- The comparison of `ListRedisPods`: by namespace, then ordinal, then name.
unfoldable pub pod_less : Pod → Pod → Bool
pod_less p q =
    if not (bytes_eq p.namespace q.namespace)
    then bytes_lt p.namespace q.namespace
    else if not (eqb_ℤ p.ordinal q.ordinal)
    then ordinal_less p.ordinal q.ordinal
    else bytes_lt p.name q.name

-- The error of a listing names the namespace and the selector.
pub data ListError : Type 0 where
  list_failed : Bytes → Bytes → ListError

-- The API's answer to a listing of one namespace with a selector: `none` is an error.
abbrev pub Listing : Type 0
Listing = Bytes → Bytes → Option (List ApiPod)

unfoldable pub collect_pods : Listing → List Bytes → Bytes → Result ListError (List Pod)
collect_pods list [] selector = ok []
collect_pods list (ns ∷ rest) selector = elim (list ns selector) [
  | none ↦ err (list_failed ns selector)
  | some found ↦ elim (collect_pods list rest selector) [
    | ok pods ↦ ok (map to_pod found ++ pods)
    | err e ↦ err e
  ]
]

unfoldable pub list_redis_pods : Listing → List Bytes → Bytes → Result ListError (List Pod)
unfolding collect_pods
list_redis_pods list namespaces selector = elim (collect_pods list namespaces selector) [
  | ok pods ↦ ok (sort_by pod_less pods)
  | err e ↦ err e
]

-- The JSON merge patches that the client sends; `none` is null, which deletes the key.
pub data Patch : Type 0 where
  patch_labels : List (Bytes × Option Bytes) → Patch
  patch_annotations : List (Bytes × Option Bytes) → Patch

unfoldable pub set_role_label : Bytes → Patch
set_role_label value = patch_labels ((label_role, some value) ∷ [])

unfoldable pub remove_role_label : Patch
remove_role_label = patch_labels ((label_role, none) ∷ [])

unfoldable pub set_annotations : StringMap → Patch
set_annotations m = patch_annotations (map (λ kv. (kv.0, some kv.1)) m)

unfoldable pub find_by_ip : List Pod → Bytes → Option Pod
find_by_ip pods [] = none
find_by_ip [] (c ∷ ip) = none
find_by_ip (p ∷ ps) (c ∷ ip) = if bytes_eq p.ip (c ∷ ip) then some p else find_by_ip ps (c ∷ ip)

-- One endpoint of an EndpointSlice: its Ready condition, if it has one, and its addresses.
pub record Endpoint : Type 0 where
  pub ready : Option Bool
  pub addresses : List Bytes

abbrev pub not_ready : Option Bool → Bool
not_ready none = false
not_ready (some b) = not b

unfoldable pub endpoint_slice_addrs : List Endpoint → List Bytes
endpoint_slice_addrs [] = []
endpoint_slice_addrs (ep ∷ eps) =
    let rest = endpoint_slice_addrs eps in if not_ready ep.ready then rest else ep.addresses ++ rest
