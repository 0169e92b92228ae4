-- ===== src/Controller/Converge/Labels.antt =====
-- The role labels that each part of a tick leaves behind.
use mathlib.Core.Path.{subst}
use redis_replication_contro.Base.{
  ◌≡◌, refl, sym, ap, ◌∙◌, ◌⊎◌, inl, inr, Bool, true, false, ◌&&◌, List, [], ◌∷◌, arith, In,
  Bool-cases, if◌then◌else◌,
}
use redis_replication_contro.Base.Int.{ℤ}
use redis_replication_contro.Base.Bytes.{Bytes, bytes_eq}
use redis_replication_contro.Base.Bytes.Laws.{bytes_eq_refl, bytes_eq_iff}
use redis_replication_contro.Kube.Pods.{
  Pod, role_label, set_role_label, set_annotations, label_role, role_master, role_replica,
}
use redis_replication_contro.Config.{Config}
use redis_replication_contro.Controller.Select.{PodInfo}
use redis_replication_contro.Controller.World.{
  Event, patch, dial, no_one, rewrite, when, ignore, Trace, Env,
}
use redis_replication_contro.Controller.Failover.{
  address, replicate_of, redirect, after_promotion, promote, promoted, promote_connected,
}
use redis_replication_contro.Controller.Reconcile.{probe_pod, probe, sync_labels, wanted_role}
use redis_replication_contro.Controller.Converge.{label_after}

-- The patch of `sync_labels` for one pod.
abbrev pub role_patch : Bytes → Pod → Event
role_patch name pod = patch pod.namespace pod.name (set_role_label (wanted_role name pod))

module _ (env : Env) (initial : Bytes → Bytes → Bytes) (name : Bytes) where
  pub label_after-patched :
      (p q : Pod) (t : Trace)
      → label_after initial (role_patch name q ∷ t) p.namespace p.name ≡ (
          if bytes_eq q.namespace p.namespace && bytes_eq q.name p.name
          then wanted_role name q
          else label_after initial t p.namespace p.name)
  unfolding set_role_label
  label_after-patched p q t = ground (arith, bytes_eq_refl label_role)

  -- A patch of one of the pods leaves any pod with its label or with the wanted one.
  patched_cases :
      (p q : Pod) (t : Trace)
      → (label_after initial (role_patch name q ∷ t) p.namespace p.name
          ≡ label_after initial t p.namespace p.name)
        ⊎ (label_after initial (role_patch name q ∷ t) p.namespace p.name ≡ wanted_role name p)
  patched_cases p q t =
      elim (Bool-cases (bytes_eq q.namespace p.namespace && bytes_eq q.name p.name)) [
        | inl e ↦
            let same = (bytes_eq_iff q.name p.name).0 (ground arith) in
            inr (
              label_after-patched p q t
              ∙ rw e refl
              ∙ ap (λ n. if bytes_eq n name then role_master else role_replica) same)
        | inr e ↦ inl (label_after-patched p q t ∙ rw e refl)
      ]

  patched_self :
      (p : Pod) (t : Trace)
      → label_after initial (role_patch name p ∷ t) p.namespace p.name ≡ wanted_role name p
  patched_self p t =
      label_after-patched p p t ∙ rw (bytes_eq_refl p.namespace, bytes_eq_refl p.name) refl

  sync_step :
      (q : Pod) (pods : List Pod) (t : Trace)
      → ((role_label q ≡ wanted_role name q)
          × ((sync_labels name (q ∷ pods) env t).1 ≡ (sync_labels name pods env t).1))
        ⊎ ((sync_labels name (q ∷ pods) env t).1
            ≡ (sync_labels name pods env (role_patch name q ∷ t)).1)
  unfolding sync_labels
  sync_step q pods t = elim (Bool-cases (bytes_eq (role_label q) (wanted_role name q))) [
    | inl e ↦ inl ((bytes_eq_iff (role_label q) (wanted_role name q)).0 e, ground arith)
    | inr e ↦ inr (ground arith)
  ]

  sync_labels-keeps :
      (p : Pod) (pods : List Pod) (t : Trace)
      → label_after initial t p.namespace p.name ≡ wanted_role name p
      → label_after initial (sync_labels name pods env t).1 p.namespace p.name ≡ wanted_role name p
  sync_labels-keeps p [] t h = unfold sync_labels in h
  sync_labels-keeps p (q ∷ pods) t h = elim (sync_step q pods t) [
    | inl (e, on) ↦
        ap (λ u. label_after initial u p.namespace p.name) on ∙ sync_labels-keeps p pods t h
    | inr on ↦
        ap (λ u. label_after initial u p.namespace p.name) on
        ∙ sync_labels-keeps p pods (role_patch name q ∷ t)
            (elim (patched_cases p q t) [ inl same ↦ same ∙ h | inr done ↦ done ])
  ]

  -- If the listing shows a pod's label, or the label is already the wanted one, then it is the wanted
  -- one behind `sync_labels`.
  pub sync_labels-wanted :
      (p : Pod) (pods : List Pod) (t : Trace)
      → In p pods
      → (label_after initial t p.namespace p.name ≡ role_label p)
        ⊎ (label_after initial t p.namespace p.name ≡ wanted_role name p)
      → label_after initial (sync_labels name pods env t).1 p.namespace p.name ≡ wanted_role name p
  sync_labels-wanted p pods t m (inr h) = sync_labels-keeps p pods t h
  sync_labels-wanted p [] t m (inl h) = absurd m
  sync_labels-wanted p (q ∷ pods) t (inl x) (inl h) = elim (sync_step q pods t) [
    | inl (e, on) ↦
        sync_labels-keeps p (q ∷ pods) t
          (h ∙ subst (λ q. role_label q ≡ wanted_role name q) (sym x) e)
    | inr on ↦
        ap (λ u. label_after initial u p.namespace p.name) on
        ∙ sync_labels-keeps p pods (role_patch name q ∷ t) (
            subst
              (λ q.
                label_after initial (role_patch name q ∷ t) p.namespace p.name ≡ wanted_role name p)
              x (patched_self p t))
  ]
  sync_labels-wanted p (q ∷ pods) t (inr m) (inl h) = elim (sync_step q pods t) [
    | inl (e, on) ↦
        ap (λ u. label_after initial u p.namespace p.name) on
        ∙ sync_labels-wanted p pods t m (inl h)
    | inr on ↦
        ap (λ u. label_after initial u p.namespace p.name) on
        ∙ sync_labels-wanted p pods (role_patch name q ∷ t) m
            (elim (patched_cases p q t) [ inl same ↦ inl (same ∙ h) | inr done ↦ inr done ])
  ]

module _ (cfg : Config) (env : Env) (initial : Bytes → Bytes → Bytes) (ns name : Bytes) where
  label_after-probe_pod :
      (pod : Pod) (t : Trace)
      → label_after initial (probe_pod cfg pod env t).1 ns name ≡ label_after initial t ns name
  unfolding probe_pod
  label_after-probe_pod pod t = ground arith

  pub label_after-probe :
      (pods : List Pod) (t : Trace)
      → label_after initial (probe cfg pods env t).1 ns name ≡ label_after initial t ns name
  unfolding probe
  label_after-probe [] t = refl
  label_after-probe (pod ∷ pods) t = ground (
    arith,
    label_after-probe pods t,
    label_after-probe pods (probe_pod cfg pod env t).1,
    label_after-probe_pod pod t,
  )

  label_after-replicate_of :
      (pod : Pod) (ip : Bytes) (t : Trace)
      → label_after initial (replicate_of cfg pod ip env t).1 ns name
        ≡ label_after initial t ns name
  unfolding replicate_of
  label_after-replicate_of pod ip t = ground arith

  pub label_after-redirect :
      (to ip : Bytes) (rs : List PodInfo) (t : Trace)
      → label_after initial (redirect cfg to ip rs env t).1 ns name ≡ label_after initial t ns name
  unfolding redirect
  label_after-redirect to ip [] t = refl
  label_after-redirect to ip (r ∷ rs) t = ground (
    arith,
    label_after-redirect to ip rs t,
    label_after-redirect to ip rs (replicate_of cfg r.pod ip env t).1,
    label_after-replicate_of r.pod ip t,
  )

  label_after-rewrite :
      (b : Bool) (addr : Bytes) (t : Trace)
      → label_after initial (when b (ignore (rewrite addr)) env t).1 ns name
        ≡ label_after initial t ns name
  label_after-rewrite true addr t = refl
  label_after-rewrite false addr t = refl

  label_after-after_promotion :
      (b : PodInfo) (epoch : ℤ) (rs : List PodInfo) (t : Trace)
      → label_after initial (after_promotion cfg b epoch rs env t).1 ns name
        ≡ label_after initial t ns name
  unfolding after_promotion set_annotations
  label_after-after_promotion b epoch rs t =
      label_after-redirect b.pod.name b.pod.ip rs _
      ∙ label_after-rewrite cfg.config_rewrite (address b.pod.ip cfg.redis_port) t

  pub label_after-promote :
      (b : PodInfo) (epoch : ℤ) (rs : List PodInfo) (t : Trace)
      → label_after initial (promote cfg b epoch rs env t).1 ns name ≡ label_after initial t ns name
  unfolding promote promote_connected promoted
  label_after-promote b epoch rs t =
      let addr = address b.pod.ip cfg.redis_port in
      elim (Bool-cases (env.succeeds t (dial addr))) [
        | inl e ↦ elim (Bool-cases (env.succeeds (dial addr ∷ t) (no_one addr))) [
          | inl e' ↦
              ground (arith, label_after-after_promotion b epoch rs (no_one addr ∷ dial addr ∷ t))
          | inr e' ↦ ground arith
        ]
        | inr e ↦ ground arith
      ]
