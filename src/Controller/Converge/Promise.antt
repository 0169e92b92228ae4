-- ===== src/Controller/Converge/Promise.antt =====
-- The promise of a tick to one set.
use mathlib.Core.Path.{subst}
use redis_replication_contro.Base.{
  arith, ◌≡◌, ◌≢◌, ℕ, sym, ◌∙◌, ◌⊎◌, inl, inr, Bool, true, some, List, [], All, In, All-In,
  All-of_In, keep_if, keep_if-In, In-keep_if,
}
use redis_replication_contro.Base.Int.{sub_ℕ, ◌≤ℤ◌}
use redis_replication_contro.Base.Bytes.{Bytes, bytes_eq}
use redis_replication_contro.Kube.Pods.{Pod, role_label}
use redis_replication_contro.Config.{Config}
use redis_replication_contro.Controller.Sets.{SetKey, Sets, lookup, state_or_new}
use redis_replication_contro.Controller.World.{Trace, Env}
use redis_replication_contro.Controller.Failover.{address}
use redis_replication_contro.Controller.Reconcile.{is_probed, masters_of, wanted_role}
use redis_replication_contro.Controller.Reconcile.Waits.{reached_by, probed_by, elapsed}
use redis_replication_contro.Controller.Converge.{
  Outages, is_up, master_after, label_after, Reports,
}
use redis_replication_contro.Controller.Converge.Answers.{
  AnswerAlways, IsUp, reached_by-IsUp, reached_by-AllObey, IsReached, In-not_nil, masters_reached,
  answers-IsReached,
}
use redis_replication_contro.Controller.Converge.Sets.{IsCluster, own, own-OneAddressEach, Keeps}
use redis_replication_contro.Controller.Converge.Seen.{reached_by-IsSeen}
use redis_replication_contro.Controller.Converge.OneMaster.{reconcile_set-one_master}
use redis_replication_contro.Controller.Converge.Visits.{own_tick}

-- Whether the set has, or gets, a master through the pod `p`: it is a master, or the clock has
-- passed the failure threshold since the moment at which the set's master went missing.
abbrev pub IsDue : Config → Env → (Bytes → Bool) → Sets → SetKey → Pod → Trace → Type 0
IsDue cfg env initial sets k p t =
    (master_after initial t (address p.ip cfg.redis_port) ≡ true)
    ⊎ ((moment : ℕ) × ((state_or_new (lookup sets k)).master_missing_at ≡ some moment)
        × ((u : Trace) → cfg.master_failure_threshold ≤ℤ sub_ℕ (env.time u) moment))

module _ (cfg : Config) (env : Env) (initial : Bytes → Bool) (labels : Bytes → Bytes → Bytes)
    (pods : List Pod) (sets : Sets) (k : SetKey) (cut : Outages env) where
  -- Exactly one of the set's pods that are up is a master, and the labels say which.
  pub record HasOneMaster (t : Trace) : Type 0 where
    pub master : Pod
    pub runs : In master (keep_if (is_up env cut cfg) (own cfg pods k))
    pub roles :
        All
          (λ q. master_after initial t (address q.ip cfg.redis_port) ≡ bytes_eq q.name master.name)
          (keep_if (is_up env cut cfg) (own cfg pods k))
    pub role_labels :
        All
          (λ q. label_after labels t q.namespace q.name ≡ wanted_role master.name q)
          (own cfg pods k)

  pub is_up_probed : (q : Pod) → is_up env cut cfg q ≡ true → is_probed q ≡ true
  is_up_probed q h = ground arith

  due_then :
      (p : Pod) (u : Trace)
      → Reports initial env
      → IsReached cfg env initial p (reached_by cfg env (own cfg pods k) u)
      → IsDue cfg env initial sets k p u
      → (masters_of (reached_by cfg env (own cfg pods k) u) ≢ [])
        ⊎ (cfg.master_failure_threshold
            ≤ℤ elapsed env
                (state_or_new (lookup sets k)).master_missing_at
                (probed_by cfg env (own cfg pods k) u))
  due_then p u reports found (inl up) =
      inl (masters_reached cfg env initial (own cfg pods k) p u reports found up)
  due_then p u reports found (inr (moment, e, waited)) = inr (
      subst
        (λ o. cfg.master_failure_threshold ≤ℤ elapsed env o (probed_by cfg env (own cfg pods k) u))
        (sym e) (waited (probed_by cfg env (own cfg pods k) u)))

  -- The set's own tick after the events `u`, if the set is due and shown then.
  pub own_tick-HasOneMaster :
      (p : Pod) (u t' : Trace)
      → Reports initial env
      → IsCluster cfg pods
      → AnswerAlways cfg env cut (own cfg pods k)
      → In p (own cfg pods k)
      → is_up env cut cfg p ≡ true
      → IsDue cfg env initial sets k p u
      → All (λ q. label_after labels u q.namespace q.name ≡ role_label q) (own cfg pods k)
      → Keeps cfg env initial labels pods k (own_tick cfg env initial labels pods k sets u) t'
      → HasOneMaster t'
  own_tick-HasOneMaster p u t' reports cluster ans m up due shown kept =
      let mine = own cfg pods k in
      let st = state_or_new (lookup sets k) in
      let reached = reached_by cfg env mine u in
      let found = λ (q : Pod) (n : In q mine) (h : is_up env cut cfg q ≡ true).
        answers-IsReached cfg env initial mine mine q u cut ans n h n in
      let (r, mr, er) = found p m up in
      let (x, y, (b, sole, wanted)) =
        reconcile_set-one_master cfg env initial labels mine st u
          (reached_by-AllObey cfg env initial mine u cut) reports
          (own-OneAddressEach cfg pods cluster k) shown (In-not_nil r reached mr)
          (due_then p u reports (found p m up) due) in
      let seen = All-In _ reached b (reached_by-IsSeen cfg env initial mine u reports) sole.0 in
      let reachable =
        All-In (IsUp cfg env initial cut) reached b (reached_by-IsUp cfg env initial mine u cut)
          sole.0 in
      record {
        master = b.pod;
        runs = In-keep_if (is_up env cut cfg) mine b.pod seen.member (ground (arith, seen.probed));
        roles = All-of_In _ (keep_if (is_up env cut cfg) mine) (λ q n.
            let (mq, hq) = keep_if-In (is_up env cut cfg) mine q n in
            let (s, ms, es) = found q mq hq in
            kept.roles q mq (is_up_probed q hq)
            ∙ subst
                (λ z.
                  master_after initial (own_tick cfg env initial labels pods k sets u)
                    (address z.ip cfg.redis_port)
                  ≡ bytes_eq z.name b.pod.name)
                es (All-In _ reached s sole.1 ms));
        role_labels = All-of_In _ mine (λ q n. kept.role_labels q n ∙ All-In _ mine q wanted n);
      }
