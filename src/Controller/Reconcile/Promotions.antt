-- ===== src/Controller/Reconcile/Promotions.antt =====
-- The promotions among the events of each part of a tick.
use mathlib.Core.Path.{subst}
use redis_replication_contro.Base.{
  ◌≡◌, refl, sym, ◌∙◌, ◌⊎◌, inl, inr, Bool, true, false, some, List, [], ◌∷◌, arith, Bool-cases,
}
use redis_replication_contro.Base.Int.{ℤ}
use redis_replication_contro.Base.Bytes.{Bytes}
use redis_replication_contro.Kube.Pods.{Pod, set_role_label}
use redis_replication_contro.Config.{Config}
use redis_replication_contro.Controller.Select.{PodInfo, select_failover_candidate}
use redis_replication_contro.Controller.Select.Failover.{
  IsChoice, select_failover_candidate-IsChoice,
}
use redis_replication_contro.Controller.Sets.{SetState}
use redis_replication_contro.Controller.World.{
  no_one, dial, rewrite, patch, when, ignore, Trace, Env,
}
use redis_replication_contro.Controller.Failover.{
  address, replicate_of, redirect, next_epoch, after_promotion, promote, promoted,
  promote_connected, failover_to, failover,
}
use redis_replication_contro.Controller.Reconcile.{probe_pod, probe, sync_labels, wanted_role}

-- The addresses to which `REPLICAOF NO ONE` was sent, the newest first.
abbrev pub promotions : Trace → List Bytes
promotions [] = []
promotions (no_one addr ∷ t) = addr ∷ promotions t
promotions (e ∷ t) = promotions t

module _ (cfg : Config) (env : Env) where
  promotions-probe_pod :
      (pod : Pod) (t : Trace) → promotions (probe_pod cfg pod env t).1 ≡ promotions t
  unfolding probe_pod
  promotions-probe_pod pod t = ground arith

  pub promotions-probe :
      (pods : List Pod) (t : Trace) → promotions (probe cfg pods env t).1 ≡ promotions t
  unfolding probe
  promotions-probe [] t = refl
  promotions-probe (pod ∷ pods) t = ground (
    arith,
    promotions-probe pods t,
    promotions-probe pods (probe_pod cfg pod env t).1,
    promotions-probe_pod pod t,
  )

  promotions-replicate_of :
      (pod : Pod) (ip : Bytes) (t : Trace)
      → promotions (replicate_of cfg pod ip env t).1 ≡ promotions t
  unfolding replicate_of
  promotions-replicate_of pod ip t = ground arith

  pub promotions-redirect :
      (name ip : Bytes) (rs : List PodInfo) (t : Trace)
      → promotions (redirect cfg name ip rs env t).1 ≡ promotions t
  unfolding redirect
  promotions-redirect name ip [] t = refl
  promotions-redirect name ip (r ∷ rs) t = ground (
    arith,
    promotions-redirect name ip rs t,
    promotions-redirect name ip rs (replicate_of cfg r.pod ip env t).1,
    promotions-replicate_of r.pod ip t,
  )

pub promotions-sync_labels :
    (env : Env) (name : Bytes) (pods : List Pod) (t : Trace)
    → promotions (sync_labels name pods env t).1 ≡ promotions t
unfolding sync_labels
promotions-sync_labels env name [] t = refl
promotions-sync_labels env name (pod ∷ pods) t = ground (
  arith,
  promotions-sync_labels env name pods t,
  promotions-sync_labels env name pods
      (patch pod.namespace pod.name (set_role_label (wanted_role name pod)) ∷ t),
)

promotions-when :
    (env : Env) (b : Bool) (addr : Bytes) (t : Trace)
    → promotions (when b (ignore (rewrite addr)) env t).1 ≡ promotions t
promotions-when env true addr t = refl
promotions-when env false addr t = refl

-- One more promotion, of the pod `b`, or none.
abbrev pub PromotesTo : Config → PodInfo → Trace → Trace → Type 0
PromotesTo cfg b t t' =
    (promotions t' ≡ promotions t)
    ⊎ (promotions t' ≡ address b.pod.ip cfg.redis_port ∷ promotions t)

module _ (cfg : Config) (env : Env) where
  promotions-after_promotion :
      (b : PodInfo) (epoch : ℤ) (replicas : List PodInfo) (t : Trace)
      → promotions (after_promotion cfg b epoch replicas env t).1 ≡ promotions t
  unfolding after_promotion
  promotions-after_promotion b epoch replicas t =
      promotions-redirect cfg env b.pod.name b.pod.ip replicas _
      ∙ promotions-when env cfg.config_rewrite (address b.pod.ip cfg.redis_port) t

  promote-PromotesTo :
      (b : PodInfo) (epoch : ℤ) (replicas : List PodInfo) (t : Trace)
      → PromotesTo cfg b t (promote cfg b epoch replicas env t).1
  unfolding promote promote_connected promoted
  promote-PromotesTo b epoch replicas t =
      let addr = address b.pod.ip cfg.redis_port in
      elim (Bool-cases (env.succeeds t (dial addr))) [
        | inl e ↦ elim (Bool-cases (env.succeeds (dial addr ∷ t) (no_one addr))) [
          | inl e' ↦ inr (
              ground
                (arith, promotions-after_promotion b epoch replicas (no_one addr ∷ dial addr ∷ t)))
          | inr e' ↦ inr (ground arith)
        ]
        | inr e ↦ inl (ground arith)
      ]

  failover_to-PromotesTo :
      (pods : List Pod) (replicas : List PodInfo) (st : SetState) (b : PodInfo) (t : Trace)
      → PromotesTo cfg b t (failover_to cfg pods replicas st (some b) env t).1
  unfolding failover_to
  failover_to-PromotesTo pods replicas st b t = promote-PromotesTo b (next_epoch pods st) replicas t

  -- What a failover does to the promotions: nothing without a replica, else at most the chosen one.
  pub failover-PromotesTo :
      (pods : List Pod) (replicas : List PodInfo) (st : SetState) (t : Trace)
      → (promotions (failover cfg pods replicas st env t).1 ≡ promotions t)
        ⊎ ((b : PodInfo) × IsChoice b replicas
            × (promotions (failover cfg pods replicas st env t).1
                ≡ address b.pod.ip cfg.redis_port ∷ promotions t))
  failover-PromotesTo pods [] st t =
      inl (unfold failover select_failover_candidate failover_to in refl)
  failover-PromotesTo pods (r ∷ rs) st t =
      let (b, e, choice) = select_failover_candidate-IsChoice (r ∷ rs) (λ x. cc) in
      chosen b choice (
        subst (λ o. PromotesTo cfg b t (failover_to cfg pods (r ∷ rs) st o env t).1) (sym e)
          (failover_to-PromotesTo pods (r ∷ rs) st b t))
    where
      chosen :
          (b : PodInfo)
          → IsChoice b (r ∷ rs)
          → PromotesTo cfg b t
              (failover_to cfg pods (r ∷ rs) st (select_failover_candidate (r ∷ rs)) env t).1
          → (promotions (failover cfg pods (r ∷ rs) st env t).1 ≡ promotions t)
            ⊎ ((b : PodInfo) × IsChoice b (r ∷ rs)
                × (promotions (failover cfg pods (r ∷ rs) st env t).1
                    ≡ address b.pod.ip cfg.redis_port ∷ promotions t))
      chosen b c (inl same) = unfold failover in inl same
      chosen b c (inr one) = unfold failover in inr (b, c, one)
