-- ===== src/Entry/Process/Ends.antt =====
-- When the controller's loop returns to main.
use redis_replication_contro.Base.{◌≡◌, ◌≢◌, true}
use redis_replication_contro.Controller.Run.{Controller}
use redis_replication_contro.Controller.Run.Loop.{Loop}
use redis_replication_contro.Controller.Run.Loop
use redis_replication_contro.Controller.World.{Env, Trace}
use redis_replication_contro.Entry.{Launch, config_of}
use redis_replication_contro.Entry.Process.{
  Process, Serving, ended, listen_failed, Reach, signal, lose, run, listen, fail, answer, shutdown,
  finish, begun, onwards, is_done, is_elected,
}

module _ (l : Launch) (env : Env) (c : Controller) (t : Trace) where
  -- What the process does to the loop is a run of the loop.
  pub process-loop :
      {p : Process} → Reach l env c t p → Loop.Reach (config_of l) env (Loop.waiting c t) p.loop
  process-loop begun = Loop.here
  process-loop (onwards r signal) = process-loop r
  process-loop (onwards r (lose e)) = process-loop r
  process-loop (onwards r (run x h)) = Loop.then (process-loop r) x
  process-loop (onwards r (listen addr e s)) = process-loop r
  process-loop (onwards r (fail e)) = process-loop r
  process-loop (onwards r (answer path moment e)) = process-loop r
  process-loop (onwards r (shutdown x e)) = process-loop r
  process-loop (onwards r (finish e x)) = process-loop r

  -- The context is cancelled only for a reason, and the lease is lost only under the election.
  record IsSound (p : Process) : Type 0 where
    reason : p.loop.cancelled ≡ true → is_done p ≡ true
    lease : p.lease_lost ≡ true → is_elected l ≡ true

  -- A failed server stays a failed one.
  abbrev pub Unfailed : Serving → Type 0
  Unfailed serving = serving ≢ ended listen_failed
