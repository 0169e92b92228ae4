-- ===== src/Controller/Reconcile/Isolated.antt =====
-- The states of the sets after a tick of `reconcile`.
use mathlib.Core.Path.{subst}
use redis_replication_contro.Base.{
  ◌≡◌, refl, sym, ap, ◌∙◌, ◌⊎◌, inl, inr, true, false, none, some, List, [], ◌∷◌, arith, All, In,
  Bool-cases, if◌then◌else◌, keep_if, All-In,
}
use redis_replication_contro.Base.Result.{ok}
use redis_replication_contro.Kube.Pods.{Pod, list_redis_pods}
use redis_replication_contro.Config.{Config}
use redis_replication_contro.Controller.Sets.{
  SetKey, SetState, Groups, Sets, key_eq, key_of, lookup, put, keys, group, group_by_set,
  sorted_keys, state_or_new, state_for, has_key, prune_vanished_sets,
}
use redis_replication_contro.Controller.Sets.Maps.{key_eq_iff, lookup-put, lookup-prune}
use redis_replication_contro.Controller.Sets.Groups.{Distinct, keys-Distinct, group_of_key}
use redis_replication_contro.Controller.Sets.Sorted.{sort_by-In, sort_by-Distinct, has_key-In}
use redis_replication_contro.Controller.World.{Trace, Env, list}
use redis_replication_contro.Controller.Reconcile.{
  reconcile_set, reconcile_keys, reconcile_pods, reconcile,
}

module _ (cfg : Config) (env : Env) (groups : Groups) where
  -- What a tick makes of the set `k` in the state `sets`, when it comes to the set after the events `t`.
  abbrev pub next_state : Sets → SetKey → Trace → SetState
  next_state sets k t =
      (reconcile_set cfg (group groups k) (state_or_new (lookup sets k)) env t).0.1

  -- The sets after the first key has been visited.
  abbrev pub visited : Sets → SetKey → Trace → Sets
  visited sets k t = put (put sets k (state_or_new (lookup sets k))) k (next_state sets k t)

  -- The events after that visit.
  abbrev pub visit : Sets → SetKey → Trace → Trace
  visit sets k t = (reconcile_set cfg (group groups k) (state_or_new (lookup sets k)) env t).1

  pub reconcile_keys_step :
      (k : SetKey) (ks : List SetKey) (sets : Sets) (t : Trace)
      → reconcile_keys cfg groups (k ∷ ks) sets env t
        ≡ reconcile_keys cfg groups ks (visited sets k t) env (visit sets k t)
  unfolding reconcile_keys state_for
  reconcile_keys_step k ks sets t = refl

  pub lookup-visited :
      (sets : Sets) (k j : SetKey) (t : Trace)
      → lookup (visited sets k t) j
        ≡ (if key_eq k j then some (next_state sets k t) else lookup sets j)
  lookup-visited sets k j t =
      let st = state_or_new (lookup sets k) in
      ground (arith, lookup-put (put sets k st) k j (next_state sets k t), lookup-put sets k j st)

  -- Keys that are not visited keep their states.
  not_visited :
      (ks : List SetKey) (sets : Sets) (k : SetKey) (t : Trace)
      → All (λ j. key_eq j k ≡ false) ks
      → lookup (reconcile_keys cfg groups ks sets env t).0 k ≡ lookup sets k
  not_visited [] sets k t h = unfold reconcile_keys in refl
  not_visited (j ∷ ks) sets k t (h, hs) =
      let t' = visit sets j t in
      let e = reconcile_keys_step j ks sets t in
      ap (λ r. lookup r.0 k) e
      ∙ not_visited ks (visited sets j t) k t' hs
      ∙ lookup-visited sets j k t
      ∙ rw h refl

  visited_first :
      (j : SetKey) (ks : List SetKey) (sets : Sets) (t : Trace)
      → All (λ i. key_eq i j ≡ false) ks
      → lookup (reconcile_keys cfg groups (j ∷ ks) sets env t).0 j ≡ some (next_state sets j t)
  visited_first j ks sets t h =
      let t' = visit sets j t in
      let e = reconcile_keys_step j ks sets t in
      ap (λ r. lookup r.0 j) e
      ∙ not_visited ks (visited sets j t) j t' h
      ∙ lookup-visited sets j j t
      ∙ rw ((key_eq_iff j j).1 refl) refl

  -- A visit of another key does not change what a key will be visited with.
  next_state-visited :
      (sets : Sets) (j k : SetKey) (t t' : Trace)
      → key_eq j k ≡ false
      → next_state (visited sets j t) k t' ≡ next_state sets k t'
  next_state-visited sets j k t t' ne =
      ap (λ o. (reconcile_set cfg (group groups k) (state_or_new o) env t').0.1)
        (lookup-visited sets j k t ∙ rw ne refl)

  visited_once :
      (ks : List SetKey) (sets : Sets) (k : SetKey) (t : Trace)
      → Distinct ks
      → In k ks
      → (t' : Trace) × (lookup (reconcile_keys cfg groups ks sets env t).0 k
          ≡ some (next_state sets k t'))
  visited_once [] sets k t d m = absurd m
  visited_once (j ∷ ks) sets k t (h, d) (inl x) =
      subst
        (λ i.
          (t' : Trace) × (lookup (reconcile_keys cfg groups (j ∷ ks) sets env t).0 i
            ≡ some (next_state sets i t')))
        (sym x) (t, visited_first j ks sets t h)
  visited_once (j ∷ ks) sets k t (h, d) (inr x) =
      let t' = visit sets j t in
      let e = reconcile_keys_step j ks sets t in
      let (t'', found) = visited_once ks (visited sets j t) k t' d x in
      let ne : key_eq k j ≡ false = All-In _ ks k h x in
      let flipped : key_eq j k ≡ false = ground (arith, key_eq_iff j k, key_eq_iff k j) in
      (t'', ap (λ r. lookup r.0 k) e ∙ found ∙ ap some (next_state-visited sets j k t t'' flipped))

pub sorted_keys-Distinct :
    (cfg : Config) (pods : List Pod)
    → Distinct (sorted_keys (group_by_set pods cfg.redis_set_label_key cfg.default_set_name))
unfolding sorted_keys
sorted_keys-Distinct cfg pods =
    sort_by-Distinct _ (keys-Distinct pods cfg.redis_set_label_key cfg.default_set_name)

pub sorted_has :
    (groups : Groups) (k : SetKey) → has_key groups k ≡ true → In k (sorted_keys groups)
unfolding sorted_keys
sorted_has groups k h = sort_by-In (keys groups) k (has_key-In groups k h)

reconcile_pruned :
    (cfg : Config) (env : Env) (sets : Sets) (t : Trace) (pods : List Pod)
    → list_redis_pods (env.listing t) cfg.redis_namespaces cfg.redis_pod_label_selector ≡ ok pods
    → let groups = group_by_set pods cfg.redis_set_label_key cfg.default_set_name in
      (reconcile cfg sets env t).0.1
      ≡ prune_vanished_sets groups
          (reconcile_keys cfg groups
            (sorted_keys groups)
            sets
            env
            (list cfg.redis_namespaces cfg.redis_pod_label_selector ∷ t)).0
unfolding reconcile reconcile_pods
reconcile_pruned cfg env sets t pods listed = rw listed refl

-- After a tick whose listing succeeds, the state of every set that has pods is what `reconcileSet` makes,
-- after some sequence of events, of the set's own pods and of the set's own state before the tick (or of a
-- new one). The sets without pods have no state.
pub reconcile_isolates :
    (cfg : Config) (env : Env) (sets : Sets) (t : Trace) (pods : List Pod) (k : SetKey)
    → list_redis_pods (env.listing t) cfg.redis_namespaces cfg.redis_pod_label_selector ≡ ok pods
    → let own =
        keep_if (λ p. key_eq (key_of cfg.redis_set_label_key cfg.default_set_name p) k) pods in
      let after = lookup (reconcile cfg sets env t).0.1 k in
      let present = has_key (group_by_set pods cfg.redis_set_label_key cfg.default_set_name) k in
      ((present ≡ true)
        × (t' : Trace) × (after
            ≡ some (reconcile_set cfg own (state_or_new (lookup sets k)) env t').0.1))
      ⊎ ((present ≡ false) × (after ≡ none))
reconcile_isolates cfg env sets t pods k listed =
    let groups = group_by_set pods cfg.redis_set_label_key cfg.default_set_name in
    let t' = list cfg.redis_namespaces cfg.redis_pod_label_selector ∷ t in
    let visits = (reconcile_keys cfg groups (sorted_keys groups) sets env t').0 in
    let pruned =
      ap (λ m. lookup m k) (reconcile_pruned cfg env sets t pods listed)
      ∙ lookup-prune groups visits k in
    elim (Bool-cases (has_key groups k)) [
      | inl e ↦
          let (t'', found) =
            visited_once cfg env groups (sorted_keys groups) sets k t'
              (sorted_keys-Distinct cfg pods) (sorted_has groups k e) in
          inl (
            e,
            t'',
            pruned
                ∙ rw e found
                ∙ ap
                    (λ own. some (reconcile_set cfg own (state_or_new (lookup sets k)) env t'').0.1)
                    (group_of_key pods cfg.redis_set_label_key cfg.default_set_name k),
          )
      | inr e ↦ inr (e, pruned ∙ rw e refl)
    ]
