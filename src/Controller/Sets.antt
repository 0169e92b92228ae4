-- ===== src/Controller/Sets.antt =====
-- The replication sets: their keys, the grouping of the pods, the recorded epochs, and the state that the
-- controller keeps for each set. A Go map is an association list without repeated keys.
pub mod Maps
pub mod Groups
pub mod Epochs
pub mod Sorted
use mathlib.Core.List.{foldl}
use redis_replication_contro.Base.{
  ℕ, Bool, true, false, not, ◌&&◌, Option, none, some, List, [], ◌∷◌, ◌++◌, map, if◌then◌else◌,
  keep_if,
}
use redis_replication_contro.Base.Int.{ℤ, pos, ltb_ℤ}
use redis_replication_contro.Base.Bytes.{Bytes, bytes_eq, bytes_lt, is_empty}
use redis_replication_contro.Base.Sort.{sort_by}
use redis_replication_contro.Strconv.{atoi}
use redis_replication_contro.Kube.Pods.{Pod, get, set_name}
use redis_replication_contro.Config.{annotation_failover_epoch}

pub record SetKey : Type 0 where
  pub namespace : Bytes
  pub name : Bytes

-- `none` is the zero time: a master is present. Times are nanoseconds of the monotonic clock.
pub record SetState : Type 0 where
  pub master_missing_at : Option ℕ
  pub failover_epoch : ℤ

abbrev pub new_state : SetState
new_state = record { master_missing_at = none; failover_epoch = pos 0 }

unfoldable pub key_eq : SetKey → SetKey → Bool
key_eq a b = bytes_eq a.namespace b.namespace && bytes_eq a.name b.name

abbrev pub KeyMap : Type 0 → Type 0
KeyMap V = List (SetKey × V)

module _ {V : Type 0} where
  -- m[k], none if it is missing
  unfoldable pub lookup : KeyMap V → SetKey → Option V
  lookup [] k = none
  lookup ((j, v) ∷ m) k = if key_eq j k then some v else lookup m k

  -- m[k] = v
  unfoldable pub put : KeyMap V → SetKey → V → KeyMap V
  put [] k v = (k, v) ∷ []
  put ((j, w) ∷ m) k v = if key_eq j k then (j, v) ∷ m else (j, w) ∷ put m k v

  unfoldable pub keys : KeyMap V → List SetKey
  keys [] = []
  keys ((j, v) ∷ m) = j ∷ keys m

abbrev pub Groups : Type 0
Groups = KeyMap (List Pod)

-- `groups[k]`, where a missing key gives the nil slice
unfoldable pub group : Groups → SetKey → List Pod
unfolding lookup
group groups k = elim (lookup groups k) [ none ↦ [] | some ps ↦ ps ]

abbrev pub key_of : Bytes → Bytes → Pod → SetKey
key_of label_key def p = record { namespace = p.namespace; name = set_name p label_key def }

unfoldable pub add_pod : Bytes → Bytes → Groups → Pod → Groups
unfolding group put
add_pod label_key def groups p =
    put groups (key_of label_key def p) (group groups (key_of label_key def p) ++ p ∷ [])

unfoldable pub group_by_set : List Pod → Bytes → Bytes → Groups
unfolding add_pod
group_by_set pods label_key def = foldl (add_pod label_key def) [] pods

unfoldable pub key_less : SetKey → SetKey → Bool
key_less a b =
    if not (bytes_eq a.namespace b.namespace)
    then bytes_lt a.namespace b.namespace
    else bytes_lt a.name b.name

unfoldable pub sorted_keys : Groups → List SetKey
unfolding keys
sorted_keys groups = sort_by key_less (keys groups)

-- One pod of the loop of `maxEpoch`: an annotation that is no number is passed over.
unfoldable pub raise_epoch : ℤ → Option ℤ → ℤ
raise_epoch max none = max
raise_epoch max (some n) = if ltb_ℤ max n then n else max

unfoldable pub epoch_of : Pod → Option ℤ
epoch_of p =
    let v = get p.annotations annotation_failover_epoch in if is_empty v then none else atoi v

unfoldable pub max_epoch_from : ℤ → List Pod → ℤ
unfolding raise_epoch epoch_of
max_epoch_from max [] = max
max_epoch_from max (p ∷ ps) = max_epoch_from (raise_epoch max (epoch_of p)) ps

unfoldable pub max_epoch : List Pod → ℤ
unfolding max_epoch_from
max_epoch pods = max_epoch_from (pos 0) pods

abbrev pub Sets : Type 0
Sets = KeyMap SetState

unfoldable pub state_or_new : Option SetState → SetState
state_or_new none = new_state
state_or_new (some st) = st

-- The state of a set, and the map with an entry for it.
unfoldable pub state_for : Sets → SetKey → SetState × Sets
unfolding state_or_new
state_for sets key = let st = state_or_new (lookup sets key) in (st, put sets key st)

unfoldable pub has_key : {V : Type 0} → KeyMap V → SetKey → Bool
unfolding lookup
has_key m k = elim (lookup m k) [ none ↦ false | some v ↦ true ]

unfoldable pub prune_vanished_sets : Groups → Sets → Sets
unfolding has_key
prune_vanished_sets groups sets = keep_if (λ entry. has_key groups entry.0) sets
