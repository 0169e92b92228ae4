-- ===== src/Controller/Sets/Groups.antt =====
-- The groups of `groupBySet` and the order of `sortedKeys`.
use mathlib.Core.List.{foldl, Perm}
use redis_replication_contro.Base.{
  ◌≡◌, sym, Bool, true, false, ◌&&◌, List, [], ◌∷◌, ◌++◌, append_assoc, append-nil, arith,
  if◌then◌else◌, keep_if, All, Bool-cases, inl, inr,
}
use redis_replication_contro.Base.Bytes.{Bytes, bytes_eq, is_empty}
use redis_replication_contro.Base.Sort.{IsSorted, sort_by-perm}
use redis_replication_contro.Kube.Pods.{Pod, get, set_name}
use redis_replication_contro.Controller.Sets.{
  SetKey, KeyMap, Groups, key_eq, key_of, lookup, put, group, add_pod, group_by_set, keys, key_less,
  sorted_keys,
}
use redis_replication_contro.Controller.Sets.Maps.{key_eq_iff, lookup-put}
use redis_replication_contro.Base.Bytes.Laws.{bytes_eq_iff, bytes_lt_irrefl, bytes_lt_total}
use redis_replication_contro.Base.Sort.{IsOrder, IsSorted, sort_by-IsSorted, sort_by-perm}
use redis_replication_contro.Kube.Pods.Order.{bytes_le_trans, bytes_lt_asym}

module _ (label_key def : Bytes) where
  group-add_pod :
      (groups : Groups) (p : Pod) (k : SetKey)
      → group (add_pod label_key def groups p) k
        ≡ (if key_eq (key_of label_key def p) k then group groups k ++ p ∷ [] else group groups k)
  unfolding group add_pod
  group-add_pod groups p k = ground (
    arith,
    lookup-put groups (key_of label_key def p) k (group groups (key_of label_key def p) ++ p ∷ []),
    key_eq_iff (key_of label_key def p) k,
  )

  group-foldl :
      (pods : List Pod) (groups : Groups) (k : SetKey)
      → group (foldl (add_pod label_key def) groups pods) k
        ≡ group groups k ++ keep_if (λ p. key_eq (key_of label_key def p) k) pods
  group-foldl [] groups k = sym (append-nil (group groups k))
  group-foldl (p ∷ pods) groups k = ground (
    arith,
    group-foldl pods (add_pod label_key def groups p) k,
    group-add_pod groups p k,
    append_assoc (group groups k) (p ∷ []) (keep_if (λ p. key_eq (key_of label_key def p) k) pods),
  )

pub group_of_key :
    (pods : List Pod) (label_key def : Bytes) (k : SetKey)
    → group (group_by_set pods label_key def) k
      ≡ keep_if (λ p. key_eq (key_of label_key def p) k) pods
unfolding group_by_set group lookup
group_of_key pods label_key def k = group-foldl label_key def pods [] k

-- A pod is in the key's namespace, and its label, or the default, names the key's set.
abbrev pub is_in_set : Bytes → Bytes → SetKey → Pod → Bool
is_in_set label_key def k p =
    let v = get p.labels label_key in
    bytes_eq p.namespace k.namespace && bytes_eq (if is_empty v then def else v) k.name

-- The group of a key holds exactly the pods whose namespace is the key's and whose set, the value of the
-- label `label_key` or else, where that is missing or empty, the default, is the key's name, in the order
-- of the input: sets of the same name in different namespaces never mix.
pub group-group_by_set :
    (pods : List Pod) (label_key def : Bytes) (k : SetKey)
    → group (group_by_set pods label_key def) k ≡ keep_if (is_in_set label_key def k) pods
unfolding key_eq set_name
group-group_by_set pods label_key def k = group_of_key pods label_key def k

-- The order of `sortedKeys` on keys, written as one test.
key_less_asym : (a b : SetKey) → key_less a b ≡ true → key_less b a ≡ false
unfolding key_less
key_less_asym a b h = ground (
  arith,
  bytes_eq_iff a.namespace b.namespace,
  bytes_eq_iff b.namespace a.namespace,
  bytes_lt_asym a.namespace b.namespace,
  bytes_lt_asym a.name b.name,
)

key_less_trans :
    (a b c : SetKey) → key_less b a ≡ false → key_less c b ≡ false → key_less c a ≡ false
unfolding key_less
key_less_trans a b c h k = ground (
  arith,
  bytes_eq_iff b.namespace a.namespace,
  bytes_eq_iff c.namespace b.namespace,
  bytes_eq_iff c.namespace a.namespace,
  bytes_le_trans a.namespace b.namespace c.namespace,
  bytes_le_trans a.name b.name c.name,
  bytes_lt_total b.namespace a.namespace,
  bytes_lt_total c.namespace b.namespace,
  bytes_lt_irrefl a.namespace,
)

key_less-IsOrder : IsOrder (λ k. Unit) key_less
key_less-IsOrder = record {
  asym = λ a b _ _. key_less_asym a b;
  trans = λ a b c _ _ _. key_less_trans a b c;
}

-- No key occurs twice.
abbrev pub Distinct : List SetKey → Type 0
Distinct [] = Unit
Distinct (k ∷ ks) = All (λ j. key_eq j k ≡ false) ks × Distinct ks

module _ {V : Type 0} where
  keys-put-All :
      (m : KeyMap V) (k i : SetKey) (v : V)
      → key_eq k i ≡ false
      → All (λ j. key_eq j i ≡ false) (keys m)
      → All (λ j. key_eq j i ≡ false) (keys (put m k v))
  unfolding keys put
  keys-put-All [] k i v e h = (e, tt)
  keys-put-All ((j, w) ∷ m) k i v e (h, hs) = elim (Bool-cases (key_eq j k)) [
    | inl f ↦ rw f (h, hs)
    | inr f ↦ rw f (h, keys-put-All m k i v e hs)
  ]

  keys-put-Distinct :
      (m : KeyMap V) (k : SetKey) (v : V) → Distinct (keys m) → Distinct (keys (put m k v))
  unfolding keys put
  keys-put-Distinct [] k v h = (tt, tt)
  keys-put-Distinct ((j, w) ∷ m) k v (h, hs) = elim (Bool-cases (key_eq j k)) [
    | inl f ↦ rw f (h, hs)
    | inr f ↦
        let g : key_eq k j ≡ false = ground (arith, key_eq_iff j k, key_eq_iff k j) in
        rw f (keys-put-All m k j v g h, keys-put-Distinct m k v hs)
  ]

foldl-Distinct :
    (label_key def : Bytes) (pods : List Pod) (groups : Groups)
    → Distinct (keys groups)
    → Distinct (keys (foldl (add_pod label_key def) groups pods))
foldl-Distinct label_key def [] groups h = h
foldl-Distinct label_key def (p ∷ pods) groups h =
    foldl-Distinct label_key def pods (add_pod label_key def groups p)
      (unfold add_pod in keys-put-Distinct groups (key_of label_key def p) _ h)

-- The keys of the groups are distinct.
pub keys-Distinct :
    (pods : List Pod) (label_key def : Bytes) → Distinct (keys (group_by_set pods label_key def))
unfolding group_by_set
keys-Distinct pods label_key def = foldl-Distinct label_key def pods [] (unfold keys in tt)

-- The sets are visited in the order of their namespaces and then of their names, whatever the order in
-- which the map holds them. Every key of the map is visited once, and no key is visited twice.
pub sorted_keys-order :
    (pods : List Pod) (label_key def : Bytes)
    → let groups = group_by_set pods label_key def in
      IsSorted key_less (sorted_keys groups)
      × Perm (sorted_keys groups) (keys groups)
      × Distinct (keys groups)
unfolding sorted_keys group_by_set
sorted_keys-order pods label_key def =
    let groups = group_by_set pods label_key def in
    (
      sort_by-IsSorted (λ k. Unit) key_less key_less-IsOrder (keys groups) (anything (keys groups)),
      sort_by-perm key_less (keys groups),
      keys-Distinct pods label_key def,
    )
  where
    anything : (ks : List SetKey) → All (λ k. Unit {0}) ks
    anything [] = tt
    anything (k ∷ ks) = (tt, anything ks)
