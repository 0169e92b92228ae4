-- ===== src/Controller/Pool/Finishes.antt =====
-- The goroutines of `probe` come to an end.
use redis_replication_contro.Base.{
  ℕ, ◌+◌, ◌*◌, ◌≤◌, ◌<◌, ◌≡◌, refl, ap, ◌⊎◌, inl, inr, true, false, List, [], ◌∷◌, ◌++◌, arith, All,
  Bool-cases, length,
}
use redis_replication_contro.Kube.Pods.{Pod}
use redis_replication_contro.Config.{Config}
use redis_replication_contro.Controller.World.{Trace, Env}
use redis_replication_contro.Controller.Reconcile.{is_probed}
use redis_replication_contro.Controller.Pool.{
  Task, dialing, asking, closing, releasing, finishing, ended, is_active, gives_back, Tasks, Pool,
  advance, Step, skip, spawn, work, Run, begin, next, HasEnded, IsDone,
}
use redis_replication_contro.Controller.Pool.Bounded.{
  tokens, held, held-append, held-cons, limit_pos, IsCounted, Run-IsCounted,
}

-- The steps that a goroutine still makes.
abbrev steps_left : Task → ℕ
steps_left dialing = 5
steps_left asking = 4
steps_left (closing r) = 3
steps_left (releasing r) = 2
steps_left (finishing r) = 1
steps_left (ended r) = 0

tasks_left : Tasks → ℕ
tasks_left [] = 0
tasks_left ((pod, task) ∷ tasks) = steps_left task + tasks_left tasks

tasks_left-cons :
    (pod : Pod) (task : Task) (ys : Tasks)
    → tasks_left ((pod, task) ∷ ys) ≡ steps_left task + tasks_left ys
unfolding tasks_left
tasks_left-cons pod task ys = refl

tasks_left-append : (xs ys : Tasks) → tasks_left (xs ++ ys) ≡ tasks_left xs + tasks_left ys
unfolding tasks_left
tasks_left-append [] ys = omega arith
tasks_left-append ((pod, task) ∷ xs) ys = omega (arith, tasks_left-append xs ys)

work_left : Pool → ℕ
work_left s = 6 * length s.todo + tasks_left s.tasks

steps_left-advance :
    (cfg : Config) (env : Env) (pod : Pod) (task : Task) (t : Trace)
    → is_active task ≡ true
    → steps_left (advance cfg env pod task t).0 < steps_left task
unfolding advance
steps_left-advance cfg env pod dialing t h = ground arith
steps_left-advance cfg env pod asking t h = omega arith
steps_left-advance cfg env pod (closing r) t h = omega arith
steps_left-advance cfg env pod (releasing r) t h = omega arith
steps_left-advance cfg env pod (finishing r) t h = omega arith
steps_left-advance cfg env pod (ended r) t h = absurd (cc)

tasks_left-nil : tasks_left [] ≡ 0
unfolding tasks_left
tasks_left-nil = refl

-- A goroutine that has not ended, or none.
find_active :
    (tasks : Tasks)
    → All HasEnded tasks
      ⊎ ((before after : Tasks) × (pod : Pod) × (task : Task) × (tasks
            ≡ before ++ ((pod, task) ∷ after))
          × (is_active task ≡ true))
find_active [] = inl tt
find_active ((pod, task) ∷ tasks) = elim (Bool-cases (is_active task)) [
  | inl on ↦ inr ([], tasks, pod, task, refl, on)
  | inr off ↦ elim (find_active tasks) [
    | inl h ↦ inl (off, h)
    | inr (before, after, p, k, e, on) ↦
        inr ((pod, task) ∷ before, after, p, k, ap (λ l. (pod, task) ∷ l) e, on)
  ]
]

tokens_ended : (task : Task) → is_active task ≡ false → tokens task ≡ 0
tokens_ended dialing h = absurd (cc)
tokens_ended asking h = absurd (cc)
tokens_ended (closing r) h = absurd (cc)
tokens_ended (releasing r) h = absurd (cc)
tokens_ended (finishing r) h = absurd (cc)
tokens_ended (ended r) h = refl

held_ended : (tasks : Tasks) → All HasEnded tasks → held tasks ≡ 0
unfolding held
held_ended [] h = refl
held_ended ((pod, task) ∷ tasks) (h, hs) = omega (arith, tokens_ended task h, held_ended tasks hs)

gives_back-le : (task : Task) → gives_back task ≤ tokens task
gives_back-le dialing = omega arith
gives_back-le asking = omega arith
gives_back-le (closing r) = omega arith
gives_back-le (releasing r) = omega arith
gives_back-le (finishing r) = omega arith
gives_back-le (ended r) = omega arith

module _ {cfg : Config} {env : Env} where
  Step-work_left : {s s' : Pool} → Step cfg env s s' → work_left s' < work_left s
  unfolding work_left
  Step-work_left {s} (skip pod rest e out) = omega (arith, ap length e)
  Step-work_left {s} (spawn pod rest e probed room) = omega (
    arith,
    ap length e,
    tasks_left-append s.tasks ((pod, dialing) ∷ []),
    tasks_left-cons pod dialing [],
    tasks_left-nil,
  )
  Step-work_left {s} (work before after pod task e active given) =
      let task' = (advance cfg env pod task s.trace).0 in
      omega (
        arith,
        ap tasks_left e,
        tasks_left-append before ((pod, task) ∷ after),
        tasks_left-append before ((pod, task') ∷ after),
        tasks_left-cons pod task after,
        tasks_left-cons pod task' after,
        steps_left-advance cfg env pod task s.trace active,
      )

  Run-length :
      {pods : List Pod} {t : Trace} {n : ℕ} {s : Pool}
      → Run cfg env pods t n s
      → n + work_left s ≤ 6 * length pods
  Run-length begin = unfold work_left in omega (arith, tasks_left-nil)
  Run-length (next r st) = omega (arith, Run-length r, Step-work_left st)

  can_start :
      (s : Pool) (todo : List Pod)
      → IsCounted cfg s
      → s.todo ≡ todo
      → All HasEnded s.tasks
      → IsDone s ⊎ ((s' : Pool) × Step cfg env s s')
  can_start s [] counted e h = inl (record { todo = e; tasks = h })
  can_start s (pod ∷ rest) counted e h = elim (Bool-cases (is_probed pod)) [
    | inl probed ↦ inr (
      _,
      spawn pod rest e probed (omega (arith, counted.count, held_ended s.tasks h, limit_pos cfg)),
    )
    | inr out ↦ inr (_, skip pod rest e out)
  ]

  can-Step : (s : Pool) → IsCounted cfg s → IsDone s ⊎ ((s' : Pool) × Step cfg env s s')
  can-Step s counted = elim (find_active s.tasks) [
    | inl h ↦ can_start s s.todo counted refl h
    | inr (before, after, pod, task, e, on) ↦
        let room : gives_back task ≤ s.sem = omega (
          arith,
          counted.count,
          ap held e,
          held-append before ((pod, task) ∷ after),
          held-cons pod task after,
          gives_back-le task,
        ) in
        inr (_, work before after pod task e on room)
  ]

  -- The goroutines neither block one another nor go on for ever: whatever the interleaving, a state that
  -- is not done has a next step, and no run makes more than six steps for each pod.
  pub pool_finishes :
      {pods : List Pod} {t : Trace} {n : ℕ} {s : Pool}
      → Run cfg env pods t n s
      → (n ≤ 6 * length pods) × (IsDone s ⊎ ((s' : Pool) × Step cfg env s s'))
  pool_finishes {pods} {t} {n} {s} r = (omega (arith, Run-length r), can-Step s (Run-IsCounted r))
