-- ===== src/Controller/Pool.antt =====
-- The goroutines of `probe` in internal/controller/controller.go, interleaved in any order. The main
-- goroutine goes over the pods and sends a value on the channel `sem` for each goroutine that it starts,
-- which waits while the channel is full; a goroutine talks to its pod, writes its slot, takes a value
-- out again (`<-sem`) and reports to the wait group (`wg.Done`). A pod that is not probed keeps an empty slot.
pub mod Bounded
pub mod Finishes
pub mod Refines
mod Tests
use redis_replication_contro.Base.{
  ℕ, zero, suc, ◌+◌, ◌-◌, ◌*◌, ◌<◌, ◌≤◌, ◌≡◌, Bool, true, false, Option, none, some, List, [], ◌∷◌,
  ◌++◌, All, if◌then◌else◌,
}
use redis_replication_contro.Base.Int.{ℤ, pos, ltb_ℤ, pos_part}
use redis_replication_contro.Redis.Info.{ReplicationInfo}
use redis_replication_contro.Kube.Pods.{Pod}
use redis_replication_contro.Config.{Config}
use redis_replication_contro.Controller.Select.{PodInfo}
use redis_replication_contro.Controller.World.{Event, dial, info, close, Trace, Env}
use redis_replication_contro.Controller.Failover.{address}
use redis_replication_contro.Controller.Reconcile.{is_probed, add_report}

-- Where a goroutine stands. From `releasing` on its slot is written: `none` is a slot that is not `ok`.
pub data Task : Type 0 where
  dialing asking : Task
  closing releasing finishing ended : Option ReplicationInfo → Task

abbrev pub is_active : Task → Bool
is_active (ended r) = false
is_active task = true

-- How many values a goroutine takes out of `sem` with its next step: `<-sem` is the last but one.
abbrev pub gives_back : Task → ℕ
gives_back (releasing r) = 1
gives_back task = 0

abbrev pub Tasks : Type 0
Tasks = List (Pod × Task)

-- The capacity of `sem`.
abbrev pub limit : Config → ℕ
limit cfg = if ltb_ℤ cfg.probe_concurrency (pos 1) then 1 else pos_part cfg.probe_concurrency

-- The pods that the main goroutine has not come to, the number of values in the channel `sem`, the
-- started goroutines in the order of their pods, and the calls so far.
pub record Pool : Type 0 where
  pub todo : List Pod
  pub sem : ℕ
  pub tasks : Tasks
  pub trace : Trace

-- The next thing that an active goroutine does.
pub advance : Config → Env → Pod → Task → Trace → Task × Trace
advance cfg env pod dialing t =
    let addr = address pod.ip cfg.redis_port in
    if env.succeeds t (dial addr) then (asking, dial addr ∷ t) else (releasing none, dial addr ∷ t)
advance cfg env pod asking t =
    let addr = address pod.ip cfg.redis_port in (closing (env.report t addr), info addr ∷ t)
advance cfg env pod (closing r) t =
    let addr = address pod.ip cfg.redis_port in (releasing r, close addr ∷ t)
advance cfg env pod (releasing r) t = (finishing r, t)
advance cfg env pod (finishing r) t = (ended r, t)
advance cfg env pod (ended r) t = (ended r, t)

-- A send on `sem` waits while the channel is full, a receive while it is empty.
pub data Step (cfg : Config) (env : Env) (s : Pool) : Pool → Type 0 where
  skip :
      (pod : Pod) (rest : List Pod)
      → s.todo ≡ pod ∷ rest
      → is_probed pod ≡ false
      → Step cfg env s (record s { todo = rest })
  spawn :
      (pod : Pod) (rest : List Pod)
      → s.todo ≡ pod ∷ rest
      → is_probed pod ≡ true
      → s.sem < limit cfg
      → Step cfg env s
          (record s { todo = rest; sem = s.sem + 1; tasks = s.tasks ++ (pod, dialing) ∷ [] })
  work :
      (before after : Tasks) (pod : Pod) (task : Task)
      → s.tasks ≡ before ++ ((pod, task) ∷ after)
      → is_active task ≡ true
      → gives_back task ≤ s.sem
      → Step cfg env s (record s {
        sem = s.sem - gives_back task;
        tasks = before ++ ((pod, (advance cfg env pod task s.trace).0) ∷ after);
        trace = (advance cfg env pod task s.trace).1;
      })

abbrev pub start : List Pod → Trace → Pool
start pods t = record { todo = pods; sem = 0; tasks = []; trace = t }

-- What can come up after `n` steps.
pub data Run (cfg : Config) (env : Env) (pods : List Pod) (t : Trace) : ℕ → Pool → Type 0 where
  begin : Run cfg env pods t 0 (start pods t)
  next :
      {n : ℕ} {s s' : Pool}
      → Run cfg env pods t n s
      → Step cfg env s s'
      → Run cfg env pods t (suc n) s'

abbrev pub HasEnded : Pod × Task → Type 0
HasEnded (pod, task) = is_active task ≡ false

-- `wg.Wait()` returns.
pub record IsDone (s : Pool) : Type 0 where
  pub todo : s.todo ≡ []
  pub tasks : All HasEnded s.tasks

abbrev pub slot : Task → Option ReplicationInfo
slot dialing = none
slot asking = none
slot (closing r) = none
slot (releasing r) = r
slot (finishing r) = r
slot (ended r) = r

-- The loop over `results`.
pub reached : Tasks → List PodInfo
reached [] = []
reached ((pod, task) ∷ tasks) = add_report pod (slot task) (reached tasks)
