-- ===== src/Controller/Reconcile/Elects.antt =====
-- The case of `reconcileSet` in which several pods report to be masters.
use mathlib.Core.List.{reverse, reverse-cons}
use mathlib.Core.Path.{subst}
use redis_replication_contro.Base.{
  ◌≡◌, ◌↔◌, refl, sym, ap, ◌∙◌, ◌⊎◌, inl, inr, true, false, not, Option, none, some, List, [], ◌∷◌,
  ◌++◌, map, append_assoc, arith, All, In, Bool-cases, keep_if,
}
use redis_replication_contro.Base.Int.{ℤ}
use redis_replication_contro.Base.Bytes.{Bytes, codes, bytes_eq}
use redis_replication_contro.Base.Bytes.Laws.{bytes_eq_iff}
use redis_replication_contro.Kube.Pods.{Pod, get, set_role_label, has_master_label}
use redis_replication_contro.Config.{Config}
use redis_replication_contro.Controller.Select.{PodInfo, labeled_master, select_bootstrap_candidate}
use redis_replication_contro.Controller.Select.Bootstrap.{bootstrap-In}
use redis_replication_contro.Controller.Sets.{SetState}
use redis_replication_contro.Controller.World.{Event, dial, patch, replica_of, Trace, Env}
use redis_replication_contro.Controller.Failover.{address, replicate_of, redirect}
use redis_replication_contro.Controller.Reconcile.{
  pick_master, or_bootstrap, probe_pod, probe, sync_labels, wanted_role, with_masters,
  reconcile_set, masters_of, replicas_of,
}

-- The pod's role label is "master".
abbrev pub IsLabelled : Pod → Type 0
IsLabelled p = get p.labels (codes "redis-current-role") ≡ codes "master"

has_master_label_iff : (p : Pod) → (has_master_label p ≡ true) ↔ IsLabelled p
unfolding has_master_label
has_master_label_iff p = bytes_eq_iff (get p.labels (codes "redis-current-role")) (codes "master")

labeled_master_step :
    (m : PodInfo) (ms : List PodInfo)
    → (IsLabelled m.pod × (labeled_master (m ∷ ms) ≡ some m))
      ⊎ (¬ IsLabelled m.pod × (labeled_master (m ∷ ms) ≡ labeled_master ms))
unfolding labeled_master
labeled_master_step m ms = elim (Bool-cases (has_master_label m.pod)) [
  | inl e ↦ inl ((has_master_label_iff m.pod).0 e, rw e)
  | inr e ↦ inr (λ x. absurd (cc ((has_master_label_iff m.pod).1 x, e)), rw e)
]

labeled_master_cases :
    (ms : List PodInfo)
    → ((b : PodInfo) × (labeled_master ms ≡ some b) × In b ms × IsLabelled b.pod)
      ⊎ ((labeled_master ms ≡ none) × All (λ m. ¬ IsLabelled m.pod) ms)
labeled_master_cases [] = inr (unfold labeled_master in refl, tt)
labeled_master_cases (m ∷ ms) = elim (labeled_master_step m ms) [
  | inl (e, found) ↦ inl (m, found, inl refl, e)
  | inr (e, on) ↦ elim (labeled_master_cases ms) [
    | inl (b, found, mem, p) ↦ inl (b, on ∙ found, inr mem, p)
    | inr (missed, h) ↦ inr (on ∙ missed, (e, h))
  ]
]

or_else_some :
    (m : PodInfo) {o : Option PodInfo} {b : PodInfo}
    → o ≡ some b
    → (elim o [ some r ↦ r | none ↦ m ]) ≡ b
or_else_some m e = ap (λ o. elim o [ some r ↦ r | none ↦ m ]) e

pick_labeled :
    (strategy : Bytes) (m : PodInfo) (ms : List PodInfo) (b : PodInfo)
    → labeled_master (m ∷ ms) ≡ some b
    → pick_master strategy m ms ≡ b
unfolding pick_master or_bootstrap
pick_labeled strategy m ms b e = ap (or_bootstrap strategy m ms) e

pick_bootstrap :
    (strategy : Bytes) (m : PodInfo) (ms : List PodInfo) (b : PodInfo)
    → labeled_master (m ∷ ms) ≡ none
    → select_bootstrap_candidate strategy (m ∷ ms) ≡ some b
    → pick_master strategy m ms ≡ b
unfolding pick_master or_bootstrap
pick_bootstrap strategy m ms b e f = ap (or_bootstrap strategy m ms) e ∙ or_else_some m f

-- The master that is kept among several is one of them. If any of them carries the label
-- `redis-current-role=master`, the kept one carries it; else it is the choice of the bootstrap strategy.
pub pick_master-choice :
    (strategy : Bytes) (m : PodInfo) (ms : List PodInfo)
    → let b = pick_master strategy m ms in
      In b (m ∷ ms)
      × (IsLabelled b.pod
          ⊎ (All (λ x. ¬ IsLabelled x.pod) (m ∷ ms)
              × (select_bootstrap_candidate strategy (m ∷ ms) ≡ some b)))
unfolding pick_master or_bootstrap
pick_master-choice strategy m ms = elim (labeled_master_cases (m ∷ ms)) [
  | inl (b, found, mem, p) ↦
      let e = pick_labeled strategy m ms b found in
      (subst (λ x. In x (m ∷ ms)) (sym e) mem, inl (subst (λ x. IsLabelled x.pod) (sym e) p))
  | inr (missed, h) ↦
      let (b, chosen, mem) = bootstrap-In strategy m ms in
      let e = pick_bootstrap strategy m ms b missed chosen in
      (subst (λ x. In x (m ∷ ms)) (sym e) mem, inr (h, chosen ∙ ap some (sym e)))
]

-- The pods told to follow, as (pod address, host, port), the newest first.
abbrev pub followers : Trace → List (Bytes × Bytes × ℤ)
followers [] = []
followers (replica_of addr host port ∷ t) = (addr, host, port) ∷ followers t
followers (e ∷ t) = followers t

-- Every call of the environment succeeds.
abbrev pub AllSucceed : Env → Type 0
AllSucceed env = (t : Trace) (e : Event) → env.succeeds t e ≡ true

module _ (cfg : Config) (env : Env) where
  followers-replicate_of :
      (pod : Pod) (ip : Bytes) (t : Trace)
      → AllSucceed env
      → followers (replicate_of cfg pod ip env t).1
        ≡ (address pod.ip cfg.redis_port, ip, cfg.redis_port) ∷ followers t
  unfolding replicate_of
  followers-replicate_of pod ip t all =
      let addr = address pod.ip cfg.redis_port in
      ground (arith, all t (dial addr), all (dial addr ∷ t) (replica_of addr ip cfg.redis_port))

  -- The pods of a list but the named one, as `followers` lists them.
  abbrev pub told : Bytes → Bytes → List PodInfo → List (Bytes × Bytes × ℤ)
  told name ip rs =
      map (λ r. (address r.pod.ip cfg.redis_port, ip, cfg.redis_port))
        (keep_if (λ r. not (bytes_eq r.pod.name name)) rs)

  redirect_step :
      (name ip : Bytes) (r : PodInfo) (rs : List PodInfo) (t : Trace)
      → AllSucceed env
      → ((bytes_eq r.pod.name name ≡ true)
          × (redirect cfg name ip (r ∷ rs) env t ≡ redirect cfg name ip rs env t)
          × (told name ip (r ∷ rs) ≡ told name ip rs))
        ⊎ ((bytes_eq r.pod.name name ≡ false)
            × (redirect cfg name ip (r ∷ rs) env t
                ≡ redirect cfg name ip rs env (replicate_of cfg r.pod ip env t).1)
            × (told name ip (r ∷ rs)
                ≡ (address r.pod.ip cfg.redis_port, ip, cfg.redis_port) ∷ told name ip rs))
  unfolding redirect
  redirect_step name ip r rs t all = elim (Bool-cases (bytes_eq r.pod.name name)) [
    | inl e ↦ inl (e, rw e, rw e)
    | inr e ↦ inr (e, rw e, rw e)
  ]

  pub followers-redirect :
      (name ip : Bytes) (rs : List PodInfo) (t : Trace)
      → AllSucceed env
      → followers (redirect cfg name ip rs env t).1 ≡ reverse (told name ip rs) ++ followers t
  followers-redirect name ip [] t all = unfold redirect in refl
  followers-redirect name ip (r ∷ rs) t all = elim (redirect_step name ip r rs t all) [
    | inl (e, same, fewer) ↦
        ap (λ x. followers x.1) same
        ∙ followers-redirect name ip rs t all
        ∙ ap (λ l. reverse l ++ followers t) (sym fewer)
    | inr (e, on, more) ↦
        let x : Bytes × Bytes × ℤ = (address r.pod.ip cfg.redis_port, ip, cfg.redis_port) in
        ap (λ x. followers x.1) on
        ∙ followers-redirect name ip rs (replicate_of cfg r.pod ip env t).1 all
        ∙ ap (λ l. reverse (told name ip rs) ++ l) (followers-replicate_of r.pod ip t all)
        ∙ sym (append_assoc (reverse (told name ip rs)) (x ∷ []) (followers t))
        ∙ ap (λ l. l ++ followers t) (sym (reverse-cons x (told name ip rs)))
        ∙ ap (λ l. reverse l ++ followers t) (sym more)
  ]

  pub followers-probe :
      (pods : List Pod) (t : Trace) → followers (probe cfg pods env t).1 ≡ followers t
  unfolding probe probe_pod
  followers-probe [] t = refl
  followers-probe (pod ∷ pods) t =
      ground (arith, followers-probe pods t, followers-probe pods (probe_pod cfg pod env t).1)

  pub followers-sync_labels :
      (name : Bytes) (pods : List Pod) (t : Trace)
      → followers (sync_labels name pods env t).1 ≡ followers t
  unfolding sync_labels
  followers-sync_labels name [] t = refl
  followers-sync_labels name (pod ∷ pods) t = ground (
    arith,
    followers-sync_labels name pods t,
    followers-sync_labels name pods
        (patch pod.namespace pod.name (set_role_label (wanted_role name pod)) ∷ t),
  )

  followers-with_masters :
      (pods : List Pod) (replicas : List PodInfo) (st : SetState) (m n : PodInfo)
      (ms : List PodInfo) (t : Trace)
      → AllSucceed env
      → let b = pick_master cfg.initial_master_strategy m (n ∷ ms) in
        followers (with_masters cfg pods replicas st (m ∷ n ∷ ms) env t).1
        ≡ reverse (told b.pod.name b.pod.ip (m ∷ n ∷ ms)) ++ followers t
  unfolding with_masters
  followers-with_masters pods replicas st m n ms t all =
      let b = pick_master cfg.initial_master_strategy m (n ∷ ms) in
      followers-sync_labels b.pod.name pods (redirect cfg b.pod.name b.pod.ip (m ∷ n ∷ ms) env t).1
      ∙ followers-redirect b.pod.name b.pod.ip (m ∷ n ∷ ms) t all

-- If the reached pods of a tick contain at least two masters and every call succeeds, the tick sends
-- `REPLICAOF` with the address of the kept master (`pick_master`) to every reached master of another
-- name, each once and in their order, and to no other pod.
pub reconcile_set-redirects :
    (cfg : Config) (env : Env) (pods : List Pod) (st : SetState) (t : Trace) (m n : PodInfo)
    (ms : List PodInfo)
    → AllSucceed env
    → masters_of (probe cfg pods env t).0 ≡ m ∷ n ∷ ms
    → let b = pick_master cfg.initial_master_strategy m (n ∷ ms) in
      followers (reconcile_set cfg pods st env t).1
      ≡ reverse (told cfg env b.pod.name b.pod.ip (m ∷ n ∷ ms)) ++ followers t
unfolding reconcile_set
reconcile_set-redirects cfg env pods st t m n ms all two =
    let (reached, t') = probe cfg pods env t in
    let b = pick_master cfg.initial_master_strategy m (n ∷ ms) in
    ap (λ l. followers (with_masters cfg pods (replicas_of reached) st l env t').1) two
    ∙ followers-with_masters cfg env pods (replicas_of reached) st m n ms t' all
    ∙ ap (λ l. reverse (told cfg env b.pod.name b.pod.ip (m ∷ n ∷ ms)) ++ l)
        (followers-probe cfg env pods t)
