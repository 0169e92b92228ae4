-- ===== src/Controller/Pool/Bounded.antt =====
-- How many goroutines talk to their pods at once.
use redis_replication_contro.Base.{
  ℕ, ◌+◌, ◌≤◌, ◌<◌, ◌≡◌, true, refl, ap, List, [], ◌∷◌, ◌++◌, arith,
}
use redis_replication_contro.Kube.Pods.{Pod}
use redis_replication_contro.Config.{Config}
use redis_replication_contro.Controller.World.{Trace, Env}
use redis_replication_contro.Controller.Pool.{
  Task, dialing, asking, closing, releasing, finishing, ended, is_active, gives_back, Tasks, limit,
  Pool, advance, Step, skip, spawn, work, Run, begin, next,
}

-- From its start to its `<-sem` a goroutine has a value in the channel.
abbrev pub tokens : Task → ℕ
tokens (finishing r) = 0
tokens (ended r) = 0
tokens task = 1

unfoldable pub held : Tasks → ℕ
held [] = 0
held ((pod, task) ∷ tasks) = tokens task + held tasks

-- The goroutines that dial a pod, ask it or close its connection.
abbrev pub talks : Task → ℕ
talks dialing = 1
talks asking = 1
talks (closing r) = 1
talks (releasing r) = 0
talks (finishing r) = 0
talks (ended r) = 0

abbrev pub talking : Tasks → ℕ
talking [] = 0
talking ((pod, task) ∷ tasks) = talks task + talking tasks

talks-tokens : (task : Task) → talks task ≤ tokens task
talks-tokens dialing = omega arith
talks-tokens asking = omega arith
talks-tokens (closing r) = omega arith
talks-tokens (releasing r) = omega arith
talks-tokens (finishing r) = omega arith
talks-tokens (ended r) = omega arith

talking-le-held : (tasks : Tasks) → talking tasks ≤ held tasks
unfolding held
talking-le-held [] = omega arith
talking-le-held ((pod, task) ∷ tasks) = omega (arith, talks-tokens task, talking-le-held tasks)

pub held-append : (xs ys : Tasks) → held (xs ++ ys) ≡ held xs + held ys
unfolding held
held-append [] ys = omega arith
held-append ((pod, task) ∷ xs) ys = omega (arith, held-append xs ys)

pub held-cons :
    (pod : Pod) (task : Task) (ys : Tasks) → held ((pod, task) ∷ ys) ≡ tokens task + held ys
unfolding held
held-cons pod task ys = refl

-- A goroutine takes its own value out, and once.
tokens-advance :
    (cfg : Config) (env : Env) (pod : Pod) (task : Task) (t : Trace)
    → is_active task ≡ true
    → tokens (advance cfg env pod task t).0 + gives_back task ≡ tokens task
unfolding advance
tokens-advance cfg env pod dialing t h = ground arith
tokens-advance cfg env pod asking t h = omega arith
tokens-advance cfg env pod (closing r) t h = omega arith
tokens-advance cfg env pod (releasing r) t h = omega arith
tokens-advance cfg env pod (finishing r) t h = omega arith
tokens-advance cfg env pod (ended r) t h = absurd (cc)

pub limit_pos : (cfg : Config) → 0 < limit cfg
limit_pos cfg = ground arith

-- The channel holds a value for each goroutine before its `<-sem`, and no more than it can.
pub record IsCounted (cfg : Config) (s : Pool) : Type 0 where
  pub count : s.sem ≡ held s.tasks
  pub full : s.sem ≤ limit cfg

module _ {cfg : Config} {env : Env} where
  Step-IsCounted : {s s' : Pool} → Step cfg env s s' → IsCounted cfg s → IsCounted cfg s'
  Step-IsCounted {s} (skip pod rest e out) h = record { count = h.count; full = h.full }
  Step-IsCounted {s} (spawn pod rest e probed room) h = record {
    count = omega (
      arith,
      h.count,
      held-append s.tasks ((pod, dialing) ∷ []),
      held-cons pod dialing [],
      held_none,
    );
    full = omega arith;
  }
    where
      held_none : held [] ≡ 0
      held_none = unfold held in refl
  Step-IsCounted {s} (work before after pod task e active given) h =
      let task' = (advance cfg env pod task s.trace).0 in
      record {
        count = omega (
          arith,
          h.count,
          ap held e,
          held-append before ((pod, task) ∷ after),
          held-append before ((pod, task') ∷ after),
          held-cons pod task after,
          held-cons pod task' after,
          tokens-advance cfg env pod task s.trace active,
        );
        full = omega (arith, h.full);
      }

  pub Run-IsCounted :
      {pods : List Pod} {t : Trace} {n : ℕ} {s : Pool} → Run cfg env pods t n s → IsCounted cfg s
  Run-IsCounted begin = record { count = unfold held in refl; full = omega arith }
  Run-IsCounted (next r st) = Step-IsCounted st (Run-IsCounted r)

  -- At every moment of every interleaving at most `limit` goroutines dial a pod, ask it or close its
  -- connection. The limit is PROBE_CONCURRENCY, and 1 where that is lower.
  pub talking-le-limit :
      {pods : List Pod} {t : Trace} {n : ℕ} {s : Pool}
      → Run cfg env pods t n s
      → talking s.tasks ≤ limit cfg
  talking-le-limit {pods} {t} {n} {s} r =
      let h = Run-IsCounted r in omega (arith, h.count, h.full, talking-le-held s.tasks)
