-- ===== src/Controller/Converge/Visits.antt =====
-- The visit of one set among those of all sets.
use mathlib.Core.Path.{subst}
use redis_replication_contro.Base.{
  ◌≡◌, ◌≢◌, refl, sym, ◌∙◌, inl, inr, Bool, true, false, Option, none, some, List, [], ◌∷◌, arith,
  All, In, All-In,
}
use redis_replication_contro.Base.Bytes.{Bytes}
use redis_replication_contro.Kube.Pods.{Pod}
use redis_replication_contro.Config.{Config}
use redis_replication_contro.Controller.Sets.{
  SetKey, Groups, Sets, group, key_eq, lookup, state_or_new, has_key,
}
use redis_replication_contro.Controller.Sets.Maps.{key_eq_iff}
use redis_replication_contro.Controller.Sets.Groups.{Distinct, group_of_key}
use redis_replication_contro.Controller.World.{Trace, Env}
use redis_replication_contro.Controller.Reconcile.{reconcile_set, reconcile_keys}
use redis_replication_contro.Controller.Reconcile.Isolated.{
  visited, visit, lookup-visited, reconcile_keys_step,
}
use redis_replication_contro.Controller.Converge.{Outages, Reports}
use redis_replication_contro.Controller.Converge.Sets.{
  IsCluster, own, groups, Keeps, Keeps-refl, Keeps-trans, visit-Keeps, rest-Keeps, Visited,
}

module _ (cfg : Config) (env : Env) (initial : Bytes → Bool) (labels : Bytes → Bytes → Bytes)
    (pods : List Pod) (k : SetKey) where
  -- The events after the set's tick.
  abbrev pub own_tick : Sets → Trace → Trace
  own_tick sets t = (reconcile_set cfg (own cfg pods k) (state_or_new (lookup sets k)) env t).1

  first-Visited :
      (ks : List SetKey) (sets : Sets) (t : Trace)
      → Outages env
      → Reports initial env
      → IsCluster cfg pods
      → All (λ i. key_eq i k ≡ false) ks
      → Visited cfg env initial labels pods k sets t
          (reconcile_keys cfg (groups cfg env initial labels pods k) (k ∷ ks) sets env t).1
  first-Visited ks sets t cut reports cluster h =
      let gs = groups cfg env initial labels pods k in
      let end = (reconcile_keys cfg gs (k ∷ ks) sets env t).1 in
      let later : Keeps cfg env initial labels pods k (visit cfg env gs sets k t) end =
        subst (λ r. Keeps cfg env initial labels pods k (visit cfg env gs sets k t) r.1)
          (sym (reconcile_keys_step cfg env gs k ks sets t))
          (rest-Keeps cfg env initial labels pods k ks (visited cfg env gs sets k t) _ cut reports
            cluster h) in
      record {
        before = t;
        untouched = Keeps-refl cfg env initial labels pods k t;
        kept =
            subst
              (λ l.
                Keeps cfg env initial labels pods k
                  (reconcile_set cfg l (state_or_new (lookup sets k)) env t).1 end)
              (group_of_key pods cfg.redis_set_label_key cfg.default_set_name k) later;
      }

  pub keys-Visited :
      (ks : List SetKey) (sets : Sets) (t : Trace)
      → Outages env
      → Reports initial env
      → IsCluster cfg pods
      → Distinct ks
      → In k ks
      → Visited cfg env initial labels pods k sets t
          (reconcile_keys cfg (groups cfg env initial labels pods k) ks sets env t).1
  keys-Visited [] sets t cut reports cluster d m = absurd m
  keys-Visited (j ∷ ks) sets t cut reports cluster (h, d) (inl x) =
      subst
        (λ i.
          Visited cfg env initial labels pods k sets t
            (reconcile_keys cfg (groups cfg env initial labels pods k) (i ∷ ks) sets env t).1)
        x
        (first-Visited ks sets t cut reports cluster
          (subst (λ i. All (λ n. key_eq n i ≡ false) ks) (sym x) h))
  keys-Visited (j ∷ ks) sets t cut reports cluster (h, d) (inr m) =
      let gs = groups cfg env initial labels pods k in
      let ne : key_eq k j ≡ false = All-In _ ks k h m in
      let flipped : key_eq j k ≡ false = ground (arith, key_eq_iff j k, key_eq_iff k j) in
      let u = visit cfg env gs sets j t in
      let v = keys-Visited ks (visited cfg env gs sets j t) u cut reports cluster d m in
      let same : lookup (visited cfg env gs sets j t) k ≡ lookup sets k =
        lookup-visited cfg env gs sets j k t ∙ rw flipped refl in
      record {
        before = v.before;
        untouched =
            Keeps-trans cfg env initial labels pods k t u v.before
              (visit-Keeps cfg env initial labels pods k j sets t cut reports cluster flipped)
              v.untouched;
        kept =
            subst (λ r. Keeps cfg env initial labels pods k (own_tick sets v.before) r.1)
              (sym (reconcile_keys_step cfg env gs j ks sets t))
              (subst
                (λ o.
                  Keeps cfg env initial labels pods k
                    (reconcile_set cfg (own cfg pods k) (state_or_new o) env v.before).1
                    (reconcile_keys cfg gs ks (visited cfg env gs sets j t) env u).1)
                same v.kept);
      }

pub group-has_key : (gs : Groups) (k : SetKey) → group gs k ≢ [] → has_key gs k ≡ true
unfolding group has_key
group-has_key gs k h = has (lookup gs k) h
  where
    has :
        (o : Option (List Pod))
        → (elim o [ none ↦ [] | some ps ↦ ps ]) ≢ []
        → (elim o [ none ↦ false | some ps ↦ true ]) ≡ true
    has none h = absurd (h refl)
    has (some ps) h = refl
