-- ===== src/Controller/Converge/Seen.antt =====
-- What the probes of a tick find.
use mathlib.Core.Path.{subst}
use redis_replication_contro.Base.{
  ◌≡◌, refl, sym, ◌∙◌, ◌⊎◌, inl, inr, Bool, true, false, Option, none, some, List, [], ◌∷◌, arith,
  All, In, Bool-cases,
}
use redis_replication_contro.Base.Bytes.{Bytes}
use redis_replication_contro.Redis.Info.{ReplicationInfo, is_master}
use redis_replication_contro.Kube.Pods.{Pod}
use redis_replication_contro.Config.{Config}
use redis_replication_contro.Controller.Select.{PodInfo}
use redis_replication_contro.Controller.World.{dial, Trace, Env}
use redis_replication_contro.Controller.Failover.{address}
use redis_replication_contro.Controller.Reconcile.{is_probed, probe_pod, probe, add_report}
use redis_replication_contro.Controller.Reconcile.Waits.{reached_by, probed_by}
use redis_replication_contro.Controller.Converge.{master_after, Reports}
use redis_replication_contro.Controller.Converge.Roles.{master_after-probe_pod, master_after-probe}

-- A reached pod is a probed one of the set, and its report tells its role.
pub record IsSeen (cfg : Config) (pods : List Pod) (role_at : Bytes → Bool) (r : PodInfo)
    : Type 0 where
  pub member : In r.pod pods
  pub probed : is_probed r.pod ≡ true
  pub role : is_master (some r.info) ≡ role_at (address r.pod.ip cfg.redis_port)

module _ (cfg : Config) (env : Env) (initial : Bytes → Bool) where
  probe_pod-role :
      (pod : Pod) (t : Trace) (r : ReplicationInfo)
      → Reports initial env
      → (probe_pod cfg pod env t).0 ≡ some r
      → is_master (some r) ≡ master_after initial t (address pod.ip cfg.redis_port)
  unfolding probe_pod
  probe_pod-role pod t r reports e =
      let addr = address pod.ip cfg.redis_port in reports.role (dial addr ∷ t) addr r (ground arith)

  pub probe_step :
      (pod : Pod) (pods : List Pod) (t : Trace)
      → ((is_probed pod ≡ false) × (reached_by cfg env (pod ∷ pods) t ≡ reached_by cfg env pods t))
        ⊎ ((is_probed pod ≡ true)
            × (reached_by cfg env (pod ∷ pods) t
                ≡ add_report pod
                    (probe_pod cfg pod env t).0
                    (reached_by cfg env pods (probe_pod cfg pod env t).1)))
  unfolding probe
  probe_step pod pods t = elim (Bool-cases (is_probed pod)) [
    | inl e ↦ inr (e, ground arith)
    | inr e ↦ inl (e, ground arith)
  ]

  module _ (pods : List Pod) (role_at : Bytes → Bool) where
    add_report-IsSeen :
        (pod : Pod) (t : Trace) (o : Option ReplicationInfo) (rs : List PodInfo)
        → Reports initial env
        → ((a : Bytes) → master_after initial t a ≡ role_at a)
        → In pod pods
        → is_probed pod ≡ true
        → (probe_pod cfg pod env t).0 ≡ o
        → All (IsSeen cfg pods role_at) rs
        → All (IsSeen cfg pods role_at) (add_report pod o rs)
    add_report-IsSeen pod t none rs reports same m p e seen = seen
    add_report-IsSeen pod t (some r) rs reports same m p e seen = (
      record {
        member = m;
        probed = p;
        role = probe_pod-role pod t r reports e ∙ same (address pod.ip cfg.redis_port);
      },
      seen,
    )

    probe-IsSeen :
        (rest : List Pod) (t : Trace)
        → Reports initial env
        → ((a : Bytes) → master_after initial t a ≡ role_at a)
        → ((p : Pod) → In p rest → In p pods)
        → All (IsSeen cfg pods role_at) (reached_by cfg env rest t)
    probe-IsSeen [] t reports same sub = unfold probe in tt
    probe-IsSeen (pod ∷ rest) t reports same sub = elim (probe_step pod rest t) [
      | inl (e, on) ↦
          subst (All (IsSeen cfg pods role_at)) (sym on)
            (probe-IsSeen rest t reports same (λ p m. sub p (inr m)))
      | inr (e, on) ↦
          let t' = (probe_pod cfg pod env t).1 in
          subst (All (IsSeen cfg pods role_at)) (sym on) (
            add_report-IsSeen pod t (probe_pod cfg pod env t).0 _ reports same (sub pod (inl refl))
              e refl
              (probe-IsSeen rest t' reports
                (λ a. master_after-probe_pod cfg env initial a pod t ∙ same a)
                (λ p m. sub p (inr m))))
    ]

  -- Every reached pod of a tick reports the role that it has when the probes have ended.
  pub reached_by-IsSeen :
      (pods : List Pod) (t : Trace)
      → Reports initial env
      → All
          (IsSeen cfg pods (master_after initial (probed_by cfg env pods t)))
          (reached_by cfg env pods t)
  reached_by-IsSeen pods t reports =
      probe-IsSeen pods (master_after initial (probed_by cfg env pods t)) pods t reports
        (λ a. sym (master_after-probe cfg env initial a pods t)) (λ p m. m)
