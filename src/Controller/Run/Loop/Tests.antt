-- ===== src/Controller/Run/Loop/Tests.antt =====
-- A loop that ticks once and is then cancelled.
use redis_replication_contro.Base.{◌≡◌, ◌≢◌, refl, true, none, [], ◌∷◌, ltb, arith}
use redis_replication_contro.Base.Bytes.{codes}
use redis_replication_contro.Base.Result.{err}
use redis_replication_contro.Kube.Pods.{ListError, list_failed, list_redis_pods}
use redis_replication_contro.Controller.Reconcile.{reconcile, reconcile_pods}
use redis_replication_contro.Controller.World.{clock, Trace}
use redis_replication_contro.Controller.Run.{new_controller, start, ready}
use redis_replication_contro.Controller.Samples.{test_config, listing_env, test_env}
use redis_replication_contro.Controller.Run.Loop.{
  Loop, entering, selecting, Reach, here, then, enter, fire, cancel, take, work, waiting,
}
use redis_replication_contro.Controller.Run.Loop.Refines.{Holds, loop-refines-run}
use redis_replication_contro.Controller.Run.Loop.Stale.{loop_turns_stale}
use redis_replication_contro.Controller.Run.Loop.Stops.{CanReturn, cancelled-CanReturn}

abbrev first_wait : Loop
first_wait = waiting new_controller []

-- It starts, and is cancelled while a tick waits.
cancelled_loop : Loop
cancelled_loop = record first_wait {
  phase = selecting;
  controller = record new_controller { started = true; last_reconcile_at = 100 };
  cancelled = true;
  pending = true;
  trace = clock ∷ [];
}

cancelled_reach : Reach test_config listing_env first_wait cancelled_loop
unfolding cancelled_loop start
cancelled_reach = then (then (then here (enter refl)) (fire refl)) cancel

-- Cancelled, it may still take up the tick and reconcile.
abbrev ticked : (v : Loop) × Reach test_config listing_env first_wait v
unfolding cancelled_loop
ticked = (_, then (then cancelled_reach (take refl refl)) (work refl))

loop-refines-run_example :
    Holds test_config listing_env new_controller [] ticked.0.phase ticked.0.controller
      ticked.0.trace
loop-refines-run_example = loop-refines-run test_config listing_env new_controller [] ticked.1

cancelled_now : cancelled_loop.cancelled ≡ true
unfolding cancelled_loop
cancelled_now = refl

cancelled-CanReturn_example : CanReturn test_config listing_env cancelled_loop
cancelled-CanReturn_example =
    cancelled-CanReturn test_config listing_env cancelled_loop cancelled_now

no_listing :
    (t : Trace)
    → (e : ListError) × (list_redis_pods
          (λ ns selector. none)
          test_config.redis_namespaces
          test_config.redis_pod_label_selector
        ≡ err e)
unfolding list_redis_pods
no_listing t = (list_failed (codes "default") (codes "app=redis"), refl)

-- Its listing fails, and it waits for the next tick.
abbrev failed : (v : Loop) × Reach test_config (test_env (codes "slave")) first_wait v
failed = (_, then (then (then (then here (enter refl)) (fire refl)) (take refl refl)) (work refl))

failed_phase : failed.0.phase ≢ entering
unfolding reconcile reconcile_pods list_redis_pods
failed_phase e = cc

loop_turns_stale_example : ready test_config failed.0.controller 129 ≡ ltb 129 130
loop_turns_stale_example =
    loop_turns_stale test_config (test_env (codes "slave")) new_controller [] 10 129 failed.1
      failed_phase refl (omega arith) no_listing
