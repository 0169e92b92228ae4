-- ===== src/Controller/Converge/Lost.antt =====
-- The tick of a set whose master has been missing for the threshold.
use mathlib.Core.Path.{subst}
use redis_replication_contro.Base.{
  All-In, ◌≡◌, ◌≢◌, refl, sym, ap, ◌∙◌, inl, inr, Bool, false, not, ◌&&◌, ◌||◌, Option, none, some,
  List, [], ◌∷◌, arith, In, All-of_In, Bool-cases, keep_if-In, keep_if-nil, In-keep_if,
  if◌then◌else◌, ℕ,
}
use redis_replication_contro.Base.Int.{ℤ, ltb_ℤ, ◌≤ℤ◌}
use redis_replication_contro.Base.Result.{ok}
use redis_replication_contro.Base.Bytes.{Bytes, bytes_eq}
use redis_replication_contro.Redis.Info.{is_master}
use redis_replication_contro.Kube.Pods.{Pod}
use redis_replication_contro.Config.{Config}
use redis_replication_contro.Controller.Select.{PodInfo}
use redis_replication_contro.Controller.Select.Failover.{select_failover_candidate-IsChoice}
use redis_replication_contro.Controller.Sets.{SetState}
use redis_replication_contro.Controller.World.{clock, Trace, Env, ◌>>=◌, pure}
use redis_replication_contro.Controller.Failover.{promote, next_epoch, failover_to, failover}
use redis_replication_contro.Controller.Reconcile.{
  Outcome, masters_of, replicas_of, after_failover, missing_since, no_master,
}
use redis_replication_contro.Controller.Reconcile.Waits.{elapsed}
use redis_replication_contro.Controller.Converge.{AllObey, kept-AllObey, master_after}
use redis_replication_contro.Controller.Converge.Roles.{is_told, master_after-promote}
use redis_replication_contro.Controller.Converge.Labels.{label_after-promote}
use redis_replication_contro.Controller.Converge.Among.{address_of, Found, promoted_role}
use redis_replication_contro.Controller.Converge.Ends.{LabelsStay, Elects}

pub all_replicas : (rs : List PodInfo) → masters_of rs ≡ [] → rs ≢ [] → replicas_of rs ≢ []
all_replicas [] e h x = h refl
all_replicas (r ∷ rs) e h x =
    let down : is_master (some r.info) ≡ false =
      (keep_if-nil (λ pi. is_master (some pi.info)) (r ∷ rs) e).0 in
    not_nil (In-keep_if (λ pi. not (is_master (some pi.info))) (r ∷ rs) r (inl refl) (ap not down))
      x
  where
    not_nil : {l : List PodInfo} → In r l → l ≢ []
    not_nil m e = subst (In r) e m

module _ (cfg : Config) (env : Env) (initial : Bytes → Bool) (labels : Bytes → Bytes → Bytes)
    (pods : List Pod) (reached : List PodInfo) (t : Trace) where
  -- What `Ends` proves of a rest of the tick.
  abbrev pub ElectsNow : Outcome × Trace → Type 0
  ElectsNow = Elects cfg env initial labels pods reached t

  -- A promotion that succeeds, after the readings `u` of the clock.
  promotion :
      (b : PodInfo) (epoch : ℤ) (st : SetState) (u : Trace)
      → AllObey cfg env reached
      → Found cfg pods (master_after initial t) reached
      → masters_of reached ≡ []
      → In b (replicas_of reached)
      → ((a : Bytes) → master_after initial u a ≡ master_after initial t a)
      → LabelsStay labels t u
      → let p = promote cfg b epoch (replicas_of reached) env u in
        ElectsNow (after_failover pods (p.0, st) env p.1)
  unfolding after_failover
  promotion b epoch st u all f gone m same stay =
      let rs = replicas_of reached in
      let kept = kept-AllObey cfg env (λ pi. not (is_master (some pi.info))) reached all in
      let own = All-In _ rs b kept m in
      let p = promote cfg b epoch rs env u in
      let done = (master_after-promote cfg env initial [] b epoch rs u own kept).0 in
      subst (λ o. ElectsNow (after_failover pods (o, st) env p.1)) (sym done)
        (record {
          master = b;
          before = p.1;
          sole = (
            (keep_if-In _ reached b m).0,
            All-of_In _ reached (λ s at.
                (master_after-promote cfg env initial (address_of cfg s) b epoch rs u own kept).1
                ∙ ap
                    (λ x.
                      not (is_told cfg (address_of cfg s) b.pod.name rs)
                      && (bytes_eq (address_of cfg b) (address_of cfg s) || x))
                    (same (address_of cfg s))
                ∙ promoted_role cfg pods (master_after initial t) reached f b s gone m at),
          );
          labels_stay =
              λ ns name. label_after-promote cfg env labels ns name b epoch rs u ∙ stay ns name;
          ends = record { finish = refl; result = refl; forgets = refl };
        })

  promotes_chosen :
      (b : PodInfo) (st : SetState) (u : Trace)
      → AllObey cfg env reached
      → Found cfg pods (master_after initial t) reached
      → masters_of reached ≡ []
      → In b (replicas_of reached)
      → ((a : Bytes) → master_after initial u a ≡ master_after initial t a)
      → LabelsStay labels t u
      → ElectsNow
          ((failover_to cfg pods (replicas_of reached) st (some b) >>= after_failover pods) env u)
  unfolding failover_to
  promotes_chosen b st u =
      promotion b (next_epoch pods st) (record st { failover_epoch = next_epoch pods st }) u

  fails_over :
      (st : SetState) (u : Trace)
      → AllObey cfg env reached
      → Found cfg pods (master_after initial t) reached
      → masters_of reached ≡ []
      → replicas_of reached ≢ []
      → ((a : Bytes) → master_after initial u a ≡ master_after initial t a)
      → LabelsStay labels t u
      → ElectsNow ((failover cfg pods (replicas_of reached) st >>= after_failover pods) env u)
  unfolding failover
  fails_over st u all f gone some_up same stay =
      let (b, e, choice) = select_failover_candidate-IsChoice (replicas_of reached) some_up in
      subst
        (λ o.
          ElectsNow
            ((failover_to cfg pods (replicas_of reached) st o >>= after_failover pods) env u))
        (sym e) (promotes_chosen b st u all f gone choice.member same stay)

  due :
      (e : ℤ) (st : SetState) (u : Trace)
      → cfg.master_failure_threshold ≤ℤ e
      → ElectsNow ((failover cfg pods (replicas_of reached) st >>= after_failover pods) env u)
      → ElectsNow (
          (if ltb_ℤ e cfg.master_failure_threshold
              then pure (ok tt, st)
              else (failover cfg pods (replicas_of reached) st >>= after_failover pods))
            env u)
  due e st u h x = elim (Bool-cases (ltb_ℤ e cfg.master_failure_threshold)) [
    | inl below ↦ absurd (ground arith)
    | inr past ↦ rw past x
  ]

  pub none_up :
      (missing : Option ℕ) (epoch : ℤ)
      → AllObey cfg env reached
      → Found cfg pods (master_after initial t) reached
      → masters_of reached ≡ []
      → replicas_of reached ≢ []
      → cfg.master_failure_threshold ≤ℤ elapsed env missing t
      → ElectsNow (
          no_master cfg pods
            (replicas_of reached)
            (record { master_missing_at = missing; failover_epoch = epoch })
            env
            t)
  unfolding no_master missing_since
  none_up none epoch all f gone some_up waited =
      let st : SetState = record {
        master_missing_at = some (env.time t);
        failover_epoch = epoch;
      } in
      due _ st (clock ∷ clock ∷ t) waited
        (fails_over st (clock ∷ clock ∷ t) all f gone some_up (λ a. refl) (λ ns name. refl))
  none_up (some since) epoch all f gone some_up waited =
      let st : SetState = record { master_missing_at = some since; failover_epoch = epoch } in
      due _ st (clock ∷ t) waited
        (fails_over st (clock ∷ t) all f gone some_up (λ a. refl) (λ ns name. refl))
