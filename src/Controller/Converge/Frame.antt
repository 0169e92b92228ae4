-- ===== src/Controller/Converge/Frame.antt =====
-- What a tick of one set leaves as it is.
use mathlib.Core.Path.{subst}
use redis_replication_contro.Base.{
  ℕ, ◌≡◌, refl, sym, ◌∙◌, inl, inr, Bool, Option, none, some, List, [], ◌∷◌, All, All-In, All-of_In,
  Bool-cases, keep_if, keep_if-In, if◌then◌else◌,
}
use redis_replication_contro.Base.Int.{ℤ, sub_ℕ, ltb_ℤ}
use redis_replication_contro.Base.Result.{Result, ok, err}
use redis_replication_contro.Base.Bytes.{Bytes}
use redis_replication_contro.Kube.Pods.{Pod}
use redis_replication_contro.Config.{Config}
use redis_replication_contro.Controller.Select.{PodInfo, select_failover_candidate}
use redis_replication_contro.Controller.Select.Failover.{select_failover_candidate-IsChoice}
use redis_replication_contro.Controller.Sets.{SetState}
use redis_replication_contro.Controller.World.{clock, Trace, Env, ◌>>=◌, pure}
use redis_replication_contro.Controller.Failover.{
  ControllerError, redirect, promote, next_epoch, failover_to, failover,
}
use redis_replication_contro.Controller.Reconcile.{
  masters_of, replicas_of, pick_master, sync_labels, after_failover, missing_since, no_master,
  with_masters, reconcile_set,
}
use redis_replication_contro.Controller.Reconcile.Waits.{reached_by, probed_by}

module _ (cfg : Config) (env : Env) (pods : List Pod) {A : Type 0} (observe : Trace → A)
    (P : PodInfo → Type 0) where
  -- What is observed of the events stays the same through each part of a tick for pods with `P`.
  pub record IsFrame : Type 0 where
    pub clocks : (t : Trace) → observe (clock ∷ t) ≡ observe t
    pub redirects :
        (name ip : Bytes) (rs : List PodInfo) (t : Trace)
        → All P rs
        → observe (redirect cfg name ip rs env t).1 ≡ observe t
    pub promotes :
        (b : PodInfo) (epoch : ℤ) (rs : List PodInfo) (t : Trace)
        → P b
        → All P rs
        → observe (promote cfg b epoch rs env t).1 ≡ observe t
    pub labels : (name : Bytes) (t : Trace) → observe (sync_labels name pods env t).1 ≡ observe t

  module _ (frame : IsFrame) where
    frame-after_failover :
        (r : Result ControllerError (Option PodInfo) × SetState) (t : Trace)
        → observe (after_failover pods r env t).1 ≡ observe t
    unfolding after_failover
    frame-after_failover (err e, st) t = refl
    frame-after_failover (ok none, st) t = refl
    frame-after_failover (ok (some m), st) t = frame.labels m.pod.name t

    frame-failover_to :
        (rs : List PodInfo) (st : SetState) (b : PodInfo) (t : Trace)
        → P b
        → All P rs
        → observe ((failover_to cfg pods rs st (some b) >>= after_failover pods) env t).1
          ≡ observe t
    unfolding failover_to
    frame-failover_to rs st b t pb prs =
        frame-after_failover _ (promote cfg b (next_epoch pods st) rs env t).1
        ∙ frame.promotes b (next_epoch pods st) rs t pb prs

    frame-failover :
        (rs : List PodInfo) (st : SetState) (t : Trace)
        → All P rs
        → observe ((failover cfg pods rs st >>= after_failover pods) env t).1 ≡ observe t
    unfolding failover
    frame-failover [] st t prs = unfold failover_to select_failover_candidate after_failover in refl
    frame-failover (r ∷ rs) st t prs =
        let (b, e, choice) = select_failover_candidate-IsChoice (r ∷ rs) (λ x. cc) in
        subst
          (λ o.
            observe ((failover_to cfg pods (r ∷ rs) st o >>= after_failover pods) env t).1
            ≡ observe t)
          (sym e) (frame-failover_to (r ∷ rs) st b t (All-In P (r ∷ rs) b prs choice.member) prs)

    frame-due :
        (e : ℤ) (rs : List PodInfo) (st : SetState) (t : Trace)
        → All P rs
        → observe
            ((if ltb_ℤ e cfg.master_failure_threshold
                then pure (ok tt, st)
                else (failover cfg pods rs st >>= after_failover pods))
              env t).1
          ≡ observe t
    frame-due e rs st t prs = elim (Bool-cases (ltb_ℤ e cfg.master_failure_threshold)) [
      | inl h ↦ rw h refl
      | inr h ↦ rw h (frame-failover rs st t prs)
    ]

    frame-no_master :
        (rs : List PodInfo) (missing : Option ℕ) (epoch : ℤ) (t : Trace)
        → All P rs
        → observe
            (no_master cfg pods rs
              (record { master_missing_at = missing; failover_epoch = epoch })
              env
              t).1
          ≡ observe t
    unfolding no_master missing_since
    frame-no_master rs none epoch t prs =
        frame-due (sub_ℕ (env.time (clock ∷ t)) (env.time t)) rs
          (record { master_missing_at = some (env.time t); failover_epoch = epoch })
          (clock ∷ clock ∷ t) prs
        ∙ frame.clocks (clock ∷ t)
        ∙ frame.clocks t
    frame-no_master rs (some since) epoch t prs =
        frame-due (sub_ℕ (env.time t) since) rs
          (record { master_missing_at = some since; failover_epoch = epoch }) (clock ∷ t) prs
        ∙ frame.clocks t

    frame-with_masters :
        (rs ms : List PodInfo) (st : SetState) (t : Trace)
        → All P rs
        → All P ms
        → observe (with_masters cfg pods rs st ms env t).1 ≡ observe t
    unfolding with_masters
    frame-with_masters rs [] st t prs pms =
        frame-no_master rs st.master_missing_at st.failover_epoch t prs
    frame-with_masters rs (m ∷ []) st t prs pms = frame.labels m.pod.name t
    frame-with_masters rs (m ∷ n ∷ ms) st t prs pms =
        let b = pick_master cfg.initial_master_strategy m (n ∷ ms) in
        frame.labels b.pod.name _ ∙ frame.redirects b.pod.name b.pod.ip (m ∷ n ∷ ms) t pms

    All-kept : (p : PodInfo → Bool) (rs : List PodInfo) → All P rs → All P (keep_if p rs)
    All-kept p rs h = All-of_In P (keep_if p rs) (λ r m. All-In P rs r h (keep_if-In p rs r m).0)

    -- A tick whose reached pods are all pods with `P` leaves what is observed, if the probes do.
    pub frame-reconcile_set :
        (st : SetState) (t : Trace)
        → observe (probed_by cfg env pods t) ≡ observe t
        → All P (reached_by cfg env pods t)
        → observe (reconcile_set cfg pods st env t).1 ≡ observe t
    unfolding reconcile_set
    frame-reconcile_set st t same h =
        let reached = reached_by cfg env pods t in
        frame-with_masters (replicas_of reached) (masters_of reached) st (probed_by cfg env pods t)
          (All-kept _ reached h) (All-kept _ reached h)
        ∙ same
