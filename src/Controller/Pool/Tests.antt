-- ===== src/Controller/Pool/Tests.antt =====
-- One pod, probed by one goroutine, from its start to the end of the wait.
use redis_replication_contro.Base.{◌*◌, ◌≤◌, ◌≡◌, ◌⊎◌, refl, true, some, [], ◌∷◌, arith, length}
use redis_replication_contro.Base.Bytes.{codes, bytes_eq}
use redis_replication_contro.Controller.World.{Env, dial, info, close}
use redis_replication_contro.Base.Int.{pos}
use redis_replication_contro.Controller.Failover.{address}
use redis_replication_contro.Controller.Samples.{test_config, test_env, test_info, first_pod}
use redis_replication_contro.Controller.Reconcile.{is_probed, probe}
use redis_replication_contro.Controller.Pool.{
  Task, Pool, Step, spawn, work, Run, begin, next, advance, limit, IsDone, reached,
}
use redis_replication_contro.Controller.Pool.Bounded.{talking, talking-le-limit}
use redis_replication_contro.Controller.Pool.Finishes.{pool_finishes}
use redis_replication_contro.Controller.Pool.Refines.{IsSteady, pool-refines-probe}

abbrev env : Env
env = test_env (codes "master")

env-IsSteady : IsSteady env
env-IsSteady = record { dials = λ t addr. refl; reports = λ t addr. refl }

first_probed : is_probed first_pod ≡ true
unfolding is_probed bytes_eq
first_probed = refl

spawned :
    Run test_config env
      (first_pod ∷ [])
      []
      1
      (record { todo = []; sem = 1; tasks = (first_pod, Task.dialing) ∷ []; trace = [] })
spawned = next begin (spawn first_pod [] refl first_probed (omega arith))

abbrev last_pool : Pool
last_pool =
    let addr = address (codes "10.0.0.1") (pos 6379) in
    record {
      todo = [];
      sem = 0;
      tasks = (first_pod, Task.ended (some (test_info (codes "master") 7))) ∷ [];
      trace = close addr ∷ info addr ∷ dial addr ∷ [];
    }

whole-Run : Run test_config env (first_pod ∷ []) [] 6 last_pool
unfolding advance
whole-Run =
    next
      (next
        (next
          (next (next spawned (work [] [] first_pod Task.dialing refl refl (omega arith)))
            (work [] [] first_pod Task.asking refl refl (omega arith)))
          (work [] [] first_pod (Task.closing _) refl refl (omega arith)))
        (work [] [] first_pod (Task.releasing _) refl refl (omega arith)))
      (work [] [] first_pod (Task.finishing _) refl refl (omega arith))

last_pool-IsDone : IsDone last_pool
last_pool-IsDone = record { todo = refl; tasks = (refl, tt) }

talking-le-limit_example : talking last_pool.tasks ≤ limit test_config
talking-le-limit_example = talking-le-limit whole-Run

pool-refines-probe_example : reached last_pool.tasks ≡ (probe test_config (first_pod ∷ []) env []).0
pool-refines-probe_example =
    pool-refines-probe test_config env env-IsSteady whole-Run last_pool-IsDone

pool_finishes_example :
    (6 ≤ 6 * length (first_pod ∷ []))
    × (IsDone last_pool ⊎ ((s' : Pool) × Step test_config env last_pool s'))
pool_finishes_example = pool_finishes whole-Run
