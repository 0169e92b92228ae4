-- ===== src/Controller/Pool/Refines.antt =====
-- The result of the goroutines against that of probing the pods one after the other.
use mathlib.Core.Path.{subst}
use redis_replication_contro.Base.{
  ℕ, ◌≡◌, refl, sym, ap, ap₂, ◌∙◌, ◌⊎◌, inl, inr, true, false, Option, none, List, [], ◌∷◌, ◌++◌,
  append_assoc, append-nil, arith, All, All-append, Bool-cases, if◌then◌else◌, keep_if,
}
use redis_replication_contro.Base.Bytes.{Bytes}
use redis_replication_contro.Redis.Info.{ReplicationInfo}
use redis_replication_contro.Kube.Pods.{Pod}
use redis_replication_contro.Config.{Config}
use redis_replication_contro.Controller.Select.{PodInfo}
use redis_replication_contro.Controller.World.{dial, Trace, Env}
use redis_replication_contro.Controller.Failover.{address}
use redis_replication_contro.Controller.Reconcile.{is_probed, add_report, probe_pod, probe}
use redis_replication_contro.Controller.Pool.{
  Task, dialing, asking, closing, releasing, finishing, ended, Tasks, Pool, advance, Step, skip,
  spawn, work, Run, begin, next, HasEnded, IsDone, reached,
}

-- While the probes run, a pod answers the same at every moment.
pub record IsSteady (env : Env) : Type 0 where
  pub dials : (t : Trace) (addr : Bytes) → env.succeeds t (dial addr) ≡ env.succeeds [] (dial addr)
  pub reports : (t : Trace) (addr : Bytes) → env.report t addr ≡ env.report [] addr

-- The answer of a pod.
answer : Config → Env → Pod → Option ReplicationInfo
answer cfg env pod =
    let addr = address pod.ip cfg.redis_port in
    if env.succeeds [] (dial addr) then env.report [] addr else none

answers : Config → Env → List Pod → List PodInfo
answers cfg env [] = []
answers cfg env (pod ∷ pods) = add_report pod (answer cfg env pod) (answers cfg env pods)

-- What a goroutine knows is its pod's answer.
abbrev Agrees : Config → Env → Pod × Task → Type 0
Agrees cfg env (pod, dialing) = Unit
Agrees cfg env (pod, asking) = env.succeeds [] (dial (address pod.ip cfg.redis_port)) ≡ true
Agrees cfg env (pod, closing r) = r ≡ answer cfg env pod
Agrees cfg env (pod, releasing r) = r ≡ answer cfg env pod
Agrees cfg env (pod, finishing r) = r ≡ answer cfg env pod
Agrees cfg env (pod, ended r) = r ≡ answer cfg env pod

abbrev pods_of : Tasks → List Pod
pods_of [] = []
pods_of ((pod, task) ∷ tasks) = pod ∷ pods_of tasks

pods_of-append : (xs ys : Tasks) → pods_of (xs ++ ys) ≡ pods_of xs ++ pods_of ys
pods_of-append [] ys = refl
pods_of-append ((pod, task) ∷ xs) ys = ap (λ l. pod ∷ l) (pods_of-append xs ys)

All-split :
    {A : Type 0} (P : A → Type 0) (xs : List A) (y : A) (ys : List A)
    → All P (xs ++ (y ∷ ys))
    → All P xs × P y × All P ys
All-split P [] y ys (hy, hys) = (tt, hy, hys)
All-split P (x ∷ xs) y ys (hx, h) = let (a, b, c) = All-split P xs y ys h in ((hx, a), b, c)

keep_unprobed :
    (pod : Pod) (rest : List Pod)
    → is_probed pod ≡ false
    → keep_if is_probed (pod ∷ rest) ≡ keep_if is_probed rest
keep_unprobed pod rest e = rw (e, keep_if)

keep_probed :
    (pod : Pod) (rest : List Pod)
    → is_probed pod ≡ true
    → keep_if is_probed (pod ∷ rest) ≡ pod ∷ keep_if is_probed rest
keep_probed pod rest e = rw (e, keep_if)

-- The goroutines and the pods to come are the probed pods in their order.
record Inv (cfg : Config) (env : Env) (pods : List Pod) (s : Pool) : Type 0 where
  agrees : All (Agrees cfg env) s.tasks
  order : pods_of s.tasks ++ keep_if is_probed s.todo ≡ keep_if is_probed pods

module _ (cfg : Config) (env : Env) (steady : IsSteady env) where
  advance-Agrees :
      (pod : Pod) (task : Task) (t : Trace)
      → Agrees cfg env (pod, task)
      → Agrees cfg env (pod, (advance cfg env pod task t).0)
  unfolding advance answer
  advance-Agrees pod dialing t h = ground (arith, steady.dials t (address pod.ip cfg.redis_port))
  advance-Agrees pod asking t h = ground (arith, steady.reports t (address pod.ip cfg.redis_port))
  advance-Agrees pod (closing r) t h = h
  advance-Agrees pod (releasing r) t h = h
  advance-Agrees pod (finishing r) t h = h
  advance-Agrees pod (ended r) t h = h

  Step-Inv :
      {pods : List Pod} {s s' : Pool} → Step cfg env s s' → Inv cfg env pods s → Inv cfg env pods s'
  Step-Inv {pods} {s} (skip pod rest e out) inv = record {
    agrees = inv.agrees;
    order =
        ap (λ l. pods_of s.tasks ++ l) (sym (keep_unprobed pod rest out))
        ∙ ap (λ l. pods_of s.tasks ++ keep_if is_probed l) (sym e)
        ∙ inv.order;
  }
  Step-Inv {pods} {s} (spawn pod rest e probed room) inv = record {
    agrees = All-append (Agrees cfg env) s.tasks ((pod, dialing) ∷ []) inv.agrees (tt, tt);
    order =
        ap (λ l. l ++ keep_if is_probed rest) (pods_of-append s.tasks ((pod, dialing) ∷ []))
        ∙ append_assoc (pods_of s.tasks) (pod ∷ []) (keep_if is_probed rest)
        ∙ ap (λ l. pods_of s.tasks ++ l) (sym (keep_probed pod rest probed))
        ∙ ap (λ l. pods_of s.tasks ++ keep_if is_probed l) (sym e)
        ∙ inv.order;
  }
  Step-Inv {pods} {s} (work before after pod task e active given) inv =
      let (hx, hy, hz) =
        All-split (Agrees cfg env) before (pod, task) after
          (subst (All (Agrees cfg env)) e inv.agrees) in
      record {
        agrees = All-append (Agrees cfg env) before _ hx (advance-Agrees pod task s.trace hy, hz);
        order =
            ap (λ l. l ++ keep_if is_probed s.todo)
              (pods_of-append before ((pod, (advance cfg env pod task s.trace).0) ∷ after)
                ∙ sym (pods_of-append before ((pod, task) ∷ after))
                ∙ ap pods_of (sym e))
            ∙ inv.order;
      }

  Run-Inv :
      {pods : List Pod} {t : Trace} {n : ℕ} {s : Pool} → Run cfg env pods t n s → Inv cfg env pods s
  Run-Inv begin = record { agrees = tt; order = refl }
  Run-Inv (next r st) = Step-Inv st (Run-Inv r)

  -- The goroutines that have ended leave their pods' answers in the slots.
  reached_ended :
      (tasks : Tasks)
      → All HasEnded tasks
      → All (Agrees cfg env) tasks
      → reached tasks ≡ answers cfg env (pods_of tasks)
  unfolding reached answers
  reached_ended [] h k = refl
  reached_ended ((pod, ended r) ∷ tasks) (h, hs) (k, ks) =
      ap₂ (add_report pod) k (reached_ended tasks hs ks)
  reached_ended ((pod, dialing) ∷ tasks) (h, hs) k = absurd (cc)
  reached_ended ((pod, asking) ∷ tasks) (h, hs) k = absurd (cc)
  reached_ended ((pod, closing r) ∷ tasks) (h, hs) k = absurd (cc)
  reached_ended ((pod, releasing r) ∷ tasks) (h, hs) k = absurd (cc)
  reached_ended ((pod, finishing r) ∷ tasks) (h, hs) k = absurd (cc)

  probe_pod-answer : (pod : Pod) (t : Trace) → (probe_pod cfg pod env t).0 ≡ answer cfg env pod
  unfolding probe_pod answer
  probe_pod-answer pod t =
      let addr = address pod.ip cfg.redis_port in
      ground (arith, steady.dials t addr, steady.reports (dial addr ∷ t) addr)

  probe_step :
      (pod : Pod) (pods : List Pod) (t : Trace)
      → ((is_probed pod ≡ true)
          × ((probe cfg (pod ∷ pods) env t).0
              ≡ add_report pod
                  (probe_pod cfg pod env t).0
                  (probe cfg pods env (probe_pod cfg pod env t).1).0))
        ⊎ ((is_probed pod ≡ false) × ((probe cfg (pod ∷ pods) env t).0 ≡ (probe cfg pods env t).0))
  unfolding probe
  probe_step pod pods t = elim (Bool-cases (is_probed pod)) [
    | inl e ↦ inl (e, rw e refl)
    | inr e ↦ inr (e, rw e refl)
  ]

  probe-answers :
      (pods : List Pod) (t : Trace)
      → (probe cfg pods env t).0 ≡ answers cfg env (keep_if is_probed pods)
  unfolding answers
  probe-answers [] t = unfold probe in refl
  probe-answers (pod ∷ pods) t = elim (probe_step pod pods t) [
    | inl (e, s) ↦
        s
        ∙ ap₂ (add_report pod) (probe_pod-answer pod t)
            (probe-answers pods (probe_pod cfg pod env t).1)
        ∙ ap (answers cfg env) (sym (keep_probed pod pods e))
    | inr (e, s) ↦ s ∙ probe-answers pods t ∙ ap (answers cfg env) (sym (keep_unprobed pod pods e))
  ]

  -- However the goroutines are interleaved, when the wait group lets `probe` go on, the slots hold what
  -- probing the pods one after the other gives, in the order of the pods. Condition: while the probes
  -- run, each pod answers the same at every moment (`IsSteady`).
  pub pool-refines-probe :
      {pods : List Pod} {t : Trace} {n : ℕ} {s : Pool}
      → Run cfg env pods t n s
      → IsDone s
      → reached s.tasks ≡ (probe cfg pods env t).0
  pool-refines-probe {pods} {t} {n} {s} r done =
      let inv = Run-Inv r in
      reached_ended s.tasks done.tasks inv.agrees
      ∙ ap (answers cfg env) (
          sym (append-nil (pods_of s.tasks))
          ∙ ap (λ l. pods_of s.tasks ++ keep_if is_probed l) (sym done.todo)
          ∙ inv.order)
      ∙ sym (probe-answers pods t)
