-- ===== src/Controller/Converge/Whole.antt =====
-- How many masters a tick of `reconcile` leaves in each set.
use mathlib.Core.Path.{subst}
use redis_replication_contro.Base.{
  ◌≡◌, refl, sym, ◌∙◌, true, List, ◌∷◌, All, In, All-In, All-of_In, keep_if-In,
}
use redis_replication_contro.Base.Result.{ok}
use redis_replication_contro.Base.Bytes.{Bytes}
use redis_replication_contro.Base.{inl, inr, Bool}
use redis_replication_contro.Kube.Pods.{Pod, role_label, list_redis_pods}
use redis_replication_contro.Config.{Config}
use redis_replication_contro.Controller.Sets.{SetKey, Sets, group, group_by_set, sorted_keys}
use redis_replication_contro.Controller.Sets.Groups.{group_of_key}
use redis_replication_contro.Controller.World.{list, Trace, Env}
use redis_replication_contro.Controller.Reconcile.{reconcile_keys, reconcile_pods, reconcile}
use redis_replication_contro.Controller.Reconcile.Isolated.{sorted_keys-Distinct, sorted_has}
use redis_replication_contro.Controller.Converge.{Outages, is_up, label_after, Reports}
use redis_replication_contro.Controller.Converge.Answers.{AnswerAlways, In-not_nil}
use redis_replication_contro.Controller.Converge.Sets.{IsCluster, own, groups}
use redis_replication_contro.Controller.Converge.Visits.{keys-Visited, group-has_key}
use redis_replication_contro.Controller.Converge.Promise.{
  is_up_probed, IsDue, HasOneMaster, own_tick-HasOneMaster,
}

reconcile_trace :
    (cfg : Config) (env : Env) (sets : Sets) (t : Trace) (pods : List Pod)
    → list_redis_pods (env.listing t) cfg.redis_namespaces cfg.redis_pod_label_selector ≡ ok pods
    → let gs = group_by_set pods cfg.redis_set_label_key cfg.default_set_name in
      (reconcile cfg sets env t).1
      ≡ (reconcile_keys cfg gs
          (sorted_keys gs)
          sets
          env
          (list cfg.redis_namespaces cfg.redis_pod_label_selector ∷ t)).1
unfolding reconcile reconcile_pods
reconcile_trace cfg env sets t pods listed = rw listed refl

-- Conditions: which addresses are up does not change, and the instances that are up do as they are told;
-- `INFO` reports the roles that the commands so far left; pods are known by their names, and running ones
-- by their addresses; the listing gives `pods` and shows the labels that the patches so far left; the pods
-- of the set `k` that are up answer always, and one of them is a master, or the clock is past the failure
-- threshold since the moment at which the set's master went missing. Pods that are down, and all other
-- sets, may be in any state. Then at the end of the tick exactly one of the pods of the set that are up is
-- a master, and the patches leave the labels of all its pods "master" for that pod's name and "replica"
-- for all others.
pub reconcile-HasOneMaster :
    (cfg : Config) (env : Env) (initial : Bytes → Bool) (labels : Bytes → Bytes → Bytes)
    (sets : Sets) (t : Trace) (pods : List Pod) (k : SetKey) (p : Pod) (cut : Outages env)
    → Reports initial env
    → IsCluster cfg pods
    → list_redis_pods (env.listing t) cfg.redis_namespaces cfg.redis_pod_label_selector ≡ ok pods
    → All (λ q. label_after labels t q.namespace q.name ≡ role_label q) pods
    → AnswerAlways cfg env cut (own cfg pods k)
    → In p (own cfg pods k)
    → is_up env cut cfg p ≡ true
    → IsDue cfg env initial sets k p t
    → HasOneMaster cfg env initial labels pods sets k cut (reconcile cfg sets env t).1
reconcile-HasOneMaster cfg env initial labels sets t pods k p cut reports cluster listed shown ans m
      up due =
    let gs = groups cfg env initial labels pods k in
    let mine = group_of_key pods cfg.redis_set_label_key cfg.default_set_name k in
    let t' = list cfg.redis_namespaces cfg.redis_pod_label_selector ∷ t in
    let some_own = subst (In p) (sym mine) m in
    let v =
      keys-Visited cfg env initial labels pods k (sorted_keys gs) sets t' cut reports cluster
        (sorted_keys-Distinct cfg pods)
        (sorted_has gs k (group-has_key gs k (In-not_nil p (group gs k) some_own))) in
    let due_then : IsDue cfg env initial sets k p v.before = elim due [
      | inl role ↦
          inl (
            v.untouched.roles p m (is_up_probed cfg env initial labels pods sets k cut p up) ∙ role)
      | inr waited ↦ inr waited
    ] in
    subst (HasOneMaster cfg env initial labels pods sets k cut)
      (sym (reconcile_trace cfg env sets t pods listed))
      (own_tick-HasOneMaster cfg env initial labels pods sets k cut p v.before _ reports cluster ans
        m up due_then
        (All-of_In _ (own cfg pods k)
          (λ q n. v.untouched.role_labels q n ∙ All-In _ pods q shown (keep_if-In _ pods q n).0))
        v.kept)
