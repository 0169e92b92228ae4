-- ===== src/Controller/Sets/Maps.antt =====
-- The laws of the maps from set keys.
use mathlib.Core.Path.{subst}
use redis_replication_contro.Base.{
  ◌≡◌, ◌↔◌, refl, Bool, true, none, some, [], ◌∷◌, arith, if◌then◌else◌, keep_if,
}
use redis_replication_contro.Base.Bytes.Laws.{bytes_eq_iff}
use redis_replication_contro.Controller.Sets.{
  SetKey, KeyMap, key_eq, lookup, put, Groups, Sets, has_key, prune_vanished_sets,
}

key_eq→eq : (a b : SetKey) → key_eq a b ≡ true → a ≡ b
unfolding key_eq
key_eq→eq a b h = ground (arith, bytes_eq_iff a.namespace b.namespace, bytes_eq_iff a.name b.name)

key_eq_refl : (a : SetKey) → key_eq a a ≡ true
unfolding key_eq
key_eq_refl a = ground (arith, bytes_eq_iff a.namespace a.namespace, bytes_eq_iff a.name a.name)

-- Two keys are the same exactly when the namespaces and the names are.
pub key_eq_iff : (a b : SetKey) → (key_eq a b ≡ true) ↔ (a ≡ b)
key_eq_iff a b = (key_eq→eq a b, λ e. subst (λ x. key_eq a x ≡ true) e (key_eq_refl a))

module _ {V : Type 0} where
  pub lookup-put :
      (m : KeyMap V) (k j : SetKey) (v : V)
      → lookup (put m k v) j ≡ (if key_eq k j then some v else lookup m j)
  unfolding lookup put
  lookup-put [] k j v = refl
  lookup-put ((i, w) ∷ m) k j v =
      ground (arith, key_eq_iff i k, key_eq_iff i j, key_eq_iff k j, lookup-put m k j v)

  keep_if-lookup :
      (p : SetKey → Bool) (m : KeyMap V) (k : SetKey)
      → lookup (keep_if (λ e. p e.0) m) k ≡ (if p k then lookup m k else none)
  unfolding lookup
  keep_if-lookup p [] k = ground arith
  keep_if-lookup p ((i, w) ∷ m) k = ground (arith, key_eq_iff i k, keep_if-lookup p m k)

-- Pruning keeps the state of every set that still has pods as it is, and drops every other.
pub lookup-prune :
    (groups : Groups) (sets : Sets) (k : SetKey)
    → lookup (prune_vanished_sets groups sets) k
      ≡ (if has_key groups k then lookup sets k else none)
unfolding prune_vanished_sets
lookup-prune groups sets k = keep_if-lookup (has_key groups) sets k
