-- ===== src/Controller/Converge/Roles.antt =====
-- The roles that each part of a tick leaves behind.
use redis_replication_contro.Base.{
  ◌≡◌, refl, ap, ◌∙◌, Bool, true, false, not, ◌&&◌, ◌||◌, some, List, [], ◌∷◌, arith,
}
use redis_replication_contro.Base.Int.{ℤ}
use redis_replication_contro.Base.Result.{ok}
use redis_replication_contro.Base.Bytes.{Bytes, bytes_eq}
use redis_replication_contro.Kube.Pods.{Pod, set_role_label}
use redis_replication_contro.Config.{Config}
use redis_replication_contro.Controller.Select.{PodInfo}
use redis_replication_contro.Controller.World.{
  no_one, dial, rewrite, patch, when, ignore, Trace, Env,
}
use redis_replication_contro.Controller.Failover.{
  address, replicate_of, redirect, after_promotion, promote, promoted, promote_connected,
}
use redis_replication_contro.Controller.Reconcile.{probe_pod, probe, sync_labels, wanted_role}
use redis_replication_contro.Controller.Converge.{master_after, Obeys, AllObey}

-- Does `redirect` point the address to another pod?
unfoldable pub is_told : Config → Bytes → Bytes → List PodInfo → Bool
is_told cfg a name [] = false
is_told cfg a name (r ∷ rs) =
    (not (bytes_eq r.pod.name name) && bytes_eq (address r.pod.ip cfg.redis_port) a)
    || is_told cfg a name rs

module _ (cfg : Config) (env : Env) (initial : Bytes → Bool) (a : Bytes) where
  pub master_after-probe_pod :
      (pod : Pod) (t : Trace)
      → master_after initial (probe_pod cfg pod env t).1 a ≡ master_after initial t a
  unfolding probe_pod
  master_after-probe_pod pod t = ground arith

  pub master_after-probe :
      (pods : List Pod) (t : Trace)
      → master_after initial (probe cfg pods env t).1 a ≡ master_after initial t a
  unfolding probe
  master_after-probe [] t = refl
  master_after-probe (pod ∷ pods) t = ground (
    arith,
    master_after-probe pods t,
    master_after-probe pods (probe_pod cfg pod env t).1,
    master_after-probe_pod pod t,
  )

  pub master_after-sync_labels :
      (name : Bytes) (pods : List Pod) (t : Trace)
      → master_after initial (sync_labels name pods env t).1 a ≡ master_after initial t a
  unfolding sync_labels
  master_after-sync_labels name [] t = refl
  master_after-sync_labels name (pod ∷ pods) t = ground (
    arith,
    master_after-sync_labels name pods t,
    master_after-sync_labels name pods
        (patch pod.namespace pod.name (set_role_label (wanted_role name pod)) ∷ t),
  )

  master_after-replicate_of :
      (pod : Pod) (ip : Bytes) (t : Trace)
      → Obeys env (address pod.ip cfg.redis_port)
      → master_after initial (replicate_of cfg pod ip env t).1 a
        ≡ (not (bytes_eq (address pod.ip cfg.redis_port) a) && master_after initial t a)
  unfolding replicate_of
  master_after-replicate_of pod ip t all =
      let addr = address pod.ip cfg.redis_port in
      ground (arith, all.dials t, all.follows (dial addr ∷ t) ip cfg.redis_port)

  pub master_after-redirect :
      (name ip : Bytes) (rs : List PodInfo) (t : Trace)
      → AllObey cfg env rs
      → master_after initial (redirect cfg name ip rs env t).1 a
        ≡ (not (is_told cfg a name rs) && master_after initial t a)
  unfolding redirect is_told
  master_after-redirect name ip [] t all = refl
  master_after-redirect name ip (r ∷ rs) t (own, all) = ground (
    arith,
    master_after-redirect name ip rs t all,
    master_after-redirect name ip rs (replicate_of cfg r.pod ip env t).1 all,
    master_after-replicate_of r.pod ip t own,
  )

  master_after-rewrite :
      (b : Bool) (addr : Bytes) (t : Trace)
      → master_after initial (when b (ignore (rewrite addr)) env t).1 a ≡ master_after initial t a
  master_after-rewrite true addr t = refl
  master_after-rewrite false addr t = refl

  master_after-after_promotion :
      (b : PodInfo) (epoch : ℤ) (rs : List PodInfo) (t : Trace)
      → AllObey cfg env rs
      → master_after initial (after_promotion cfg b epoch rs env t).1 a
        ≡ (not (is_told cfg a b.pod.name rs) && master_after initial t a)
  unfolding after_promotion
  master_after-after_promotion b epoch rs t all =
      master_after-redirect b.pod.name b.pod.ip rs _ all
      ∙ ap (λ x. not (is_told cfg a b.pod.name rs) && x)
          (master_after-rewrite cfg.config_rewrite (address b.pod.ip cfg.redis_port) t)

  pub master_after-promote :
      (b : PodInfo) (epoch : ℤ) (rs : List PodInfo) (t : Trace)
      → Obeys env (address b.pod.ip cfg.redis_port)
      → AllObey cfg env rs
      → ((promote cfg b epoch rs env t).0 ≡ ok (some b))
        × (master_after initial (promote cfg b epoch rs env t).1 a ≡ (
            not (is_told cfg a b.pod.name rs)
            && (bytes_eq (address b.pod.ip cfg.redis_port) a || master_after initial t a)))
  unfolding promote promote_connected promoted
  master_after-promote b epoch rs t own all =
      let addr = address b.pod.ip cfg.redis_port in
      rw (own.dials t, own.promotes (dial addr ∷ t))
        (
          refl,
          master_after-after_promotion b epoch rs (no_one addr ∷ dial addr ∷ t) all ∙ ground arith,
        )
