-- ===== src/Controller/Reconcile/Waits.antt =====
-- When a tick promotes a pod.
use redis_replication_contro.Base.{
  ℕ, ◌≡◌, refl, ◌∙◌, ap, ◌⊎◌, inl, inr, Option, none, some, List, [], ◌∷◌, arith, Bool-cases,
  if◌then◌else◌,
}
use redis_replication_contro.Base.Int.{ℤ, sub_ℕ, ◌≤ℤ◌, ltb_ℤ}
use redis_replication_contro.Base.Result.{Result, ok, err}
use redis_replication_contro.Kube.Pods.{Pod}
use redis_replication_contro.Config.{Config}
use redis_replication_contro.Controller.Select.{PodInfo}
use redis_replication_contro.Controller.Select.Failover.{IsChoice}
use redis_replication_contro.Controller.Sets.{SetState}
use redis_replication_contro.Controller.World.{clock, Trace, Env, ◌>>=◌, pure}
use redis_replication_contro.Controller.Failover.{ControllerError, address, redirect, failover}
use redis_replication_contro.Controller.Reconcile.{
  probe, masters_of, replicas_of, pick_master, after_failover, missing_since, no_master,
  with_masters, reconcile_set,
}
use redis_replication_contro.Controller.Reconcile.Promotions.{
  promotions, promotions-sync_labels, failover-PromotesTo, promotions-redirect, promotions-probe,
}

-- How long the master has been missing when the code reads the clock after the events `t`: from the
-- recorded moment, or from the reading just before.
abbrev pub elapsed : Env → Option ℕ → Trace → ℤ
elapsed env (some since) t = sub_ℕ (env.time t) since
elapsed env none t = sub_ℕ (env.time (clock ∷ t)) (env.time t)

module _ (cfg : Config) (env : Env) (pods : List Pod) (replicas : List PodInfo) (t t' : Trace) where
  -- After the events `t` no promotion was made up to `t'`, or that of a replica that was chosen after
  -- the threshold had passed.
  abbrev pub Promotes : Option ℕ → Type 0
  Promotes missing =
      (promotions t' ≡ promotions t)
      ⊎ ((b : PodInfo) × (cfg.master_failure_threshold ≤ℤ elapsed env missing t)
          × IsChoice b replicas
          × (promotions t' ≡ address b.pod.ip cfg.redis_port ∷ promotions t))

module _ (cfg : Config) (env : Env) where
  promotions-after_failover :
      (pods : List Pod) (r : Result ControllerError (Option PodInfo) × SetState) (t : Trace)
      → promotions (after_failover pods r env t).1 ≡ promotions t
  unfolding after_failover
  promotions-after_failover pods (err e, st) t = refl
  promotions-after_failover pods (ok none, st) t = refl
  promotions-after_failover pods (ok (some m), st) t = promotions-sync_labels env m.pod.name pods t

  -- A failover with the labels behind it.
  failover_labels :
      (pods : List Pod) (replicas : List PodInfo) (st : SetState) (t : Trace)
      → (promotions ((failover cfg pods replicas st >>= after_failover pods) env t).1
          ≡ promotions t)
        ⊎ ((b : PodInfo) × IsChoice b replicas
            × (promotions ((failover cfg pods replicas st >>= after_failover pods) env t).1
                ≡ address b.pod.ip cfg.redis_port ∷ promotions t))
  failover_labels pods replicas st t =
      let same =
        promotions-after_failover pods (failover cfg pods replicas st env t).0
          (failover cfg pods replicas st env t).1 in
      elim (failover-PromotesTo cfg env pods replicas st t) [
        | inl e ↦ inl (same ∙ e)
        | inr (b, c, e) ↦ inr (b, c, same ∙ e)
      ]

  -- Behind the two readings of the clock.
  threshold_cases :
      (pods : List Pod) (replicas : List PodInfo) (st : SetState) (e : ℤ) (t t' : Trace)
      → promotions t ≡ promotions t'
      → let m =
          (if ltb_ℤ e cfg.master_failure_threshold
            then pure (ok tt, st)
            else (failover cfg pods replicas st >>= after_failover pods)) in
        (promotions (m env t).1 ≡ promotions t')
        ⊎ ((b : PodInfo) × (cfg.master_failure_threshold ≤ℤ e)
            × IsChoice b replicas
            × (promotions (m env t).1 ≡ address b.pod.ip cfg.redis_port ∷ promotions t'))
  threshold_cases pods replicas st e t t' same =
      elim (Bool-cases (ltb_ℤ e cfg.master_failure_threshold)) [
        | inl h ↦ rw h (inl same)
        | inr h ↦ rw h (elim (failover_labels pods replicas st t) [
          | inl x ↦ inl (x ∙ same)
          | inr (b, c, x) ↦
              inr (b, ground arith, c, x ∙ ap (λ l. address b.pod.ip cfg.redis_port ∷ l) same)
        ])
      ]

  by_missing :
      (pods : List Pod) (replicas : List PodInfo) (missing : Option ℕ) (epoch : ℤ) (t : Trace)
      → Promotes cfg env pods replicas t
          (no_master cfg pods replicas
            (record { master_missing_at = missing; failover_epoch = epoch })
            env
            t).1
          missing
  unfolding no_master missing_since
  by_missing pods replicas none epoch t =
      threshold_cases pods replicas
        (record { master_missing_at = some (env.time t); failover_epoch = epoch })
        (sub_ℕ (env.time (clock ∷ t)) (env.time t)) (clock ∷ clock ∷ t) t refl
  by_missing pods replicas (some since) epoch t =
      threshold_cases pods replicas
        (record { master_missing_at = some since; failover_epoch = epoch })
        (sub_ℕ (env.time t) since) (clock ∷ t) t refl

  with_masters-Promotes :
      (pods : List Pod) (replicas : List PodInfo) (st : SetState) (masters : List PodInfo)
      (t : Trace)
      → let t' = (with_masters cfg pods replicas st masters env t).1 in
        (promotions t' ≡ promotions t)
        ⊎ ((masters ≡ []) × Promotes cfg env pods replicas t t' st.master_missing_at)
  unfolding with_masters
  with_masters-Promotes pods replicas st [] t =
      inr (refl, by_missing pods replicas st.master_missing_at st.failover_epoch t)
  with_masters-Promotes pods replicas st (m ∷ []) t =
      inl (promotions-sync_labels env m.pod.name pods t)
  with_masters-Promotes pods replicas st (m ∷ n ∷ ms) t =
      let master = pick_master cfg.initial_master_strategy m (n ∷ ms) in
      inl (
        promotions-sync_labels env master.pod.name pods
          (redirect cfg master.pod.name master.pod.ip (m ∷ n ∷ ms) env t).1
        ∙ promotions-redirect cfg env master.pod.name master.pod.ip (m ∷ n ∷ ms) t)

-- The reached pods of a tick, and the events up to there.
abbrev pub reached_by : Config → Env → List Pod → Trace → List PodInfo
reached_by cfg env pods t = (probe cfg pods env t).0

abbrev pub probed_by : Config → Env → List Pod → Trace → Trace
probed_by cfg env pods t = (probe cfg pods env t).1

-- One tick of one set sends `REPLICAOF NO ONE` to no pod, or to exactly one. It sends it only if no
-- reached pod reported to be a master and the master has been missing for at least the failure
-- threshold, and then to a best one (`IsChoice`) of the reached pods, which include those whose
-- role is unknown. This holds whatever the pods and the API answer.
pub reconcile_set-promotes :
    (cfg : Config) (env : Env) (pods : List Pod) (st : SetState) (t : Trace)
    → (promotions (reconcile_set cfg pods st env t).1 ≡ promotions t)
      ⊎ ((b : PodInfo) × (masters_of (reached_by cfg env pods t) ≡ [])
          × (cfg.master_failure_threshold
              ≤ℤ elapsed env st.master_missing_at (probed_by cfg env pods t))
          × IsChoice b (replicas_of (reached_by cfg env pods t))
          × (promotions (reconcile_set cfg pods st env t).1
              ≡ address b.pod.ip cfg.redis_port ∷ promotions t))
unfolding reconcile_set
reconcile_set-promotes cfg env pods st t =
    let reached = reached_by cfg env pods t in
    let t' = probed_by cfg env pods t in
    let same = promotions-probe cfg env pods t in
    elim (with_masters-Promotes cfg env pods (replicas_of reached) st (masters_of reached) t') [
      | inl e ↦ inl (e ∙ same)
      | inr (h, inl e) ↦ inl (e ∙ same)
      | inr (h, inr (b, w, c, e)) ↦
          inr (b, h, w, c, e ∙ ap (λ l. address b.pod.ip cfg.redis_port ∷ l) same)
    ]
