-- ===== src/Controller/Run/Loop.antt =====
-- The goroutine of `Run` in internal/controller/controller.go against the ticker, the cancellation of its
-- context and the readers of the readiness fields, in any order. The select waits for the context or
-- for a tick, and takes either when both are there; the ticker's channel keeps one tick and drops the
-- others. `reconcile` is one step; while it runs, the readiness fields are those of before.
pub mod Refines
pub mod Stops
pub mod Stale
mod Tests
use redis_replication_contro.Base.{◌≡◌, Bool, true, false, ◌∷◌}
use redis_replication_contro.Base.Result.{Result, ok, err}
use redis_replication_contro.Kube.Pods.{ListError}
use redis_replication_contro.Config.{Config}
use redis_replication_contro.Controller.World.{Trace, Env, clock}
use redis_replication_contro.Controller.Reconcile.{reconcile}
use redis_replication_contro.Controller.Run.{Controller, start}

-- Where the goroutine stands: before `Run`, at the select, in `reconcile`, between a successful
-- `reconcile` and the lock, behind the return of the context's error.
pub data Phase : Type 0 where
  entering selecting reconciling recording returned : Phase

pub record Loop : Type 0 where
  pub phase : Phase
  pub controller : Controller
  pub cancelled : Bool
  pub pending : Bool
  pub trace : Trace

-- The branches behind `reconcile`: its error is logged and the loop goes on.
abbrev pub after_work : Result ListError Unit → Phase
after_work (err e) = selecting
after_work (ok done) = recording

abbrev pub has_ticker : Phase → Bool
has_ticker entering = false
has_ticker returned = false
has_ticker phase = true

pub data Step (cfg : Config) (env : Env) (s : Loop) : Loop → Type 0 where
  enter :
      s.phase ≡ entering
      → Step cfg env s (record s {
        phase = selecting;
        controller = (start s.controller env s.trace).0;
        trace = (start s.controller env s.trace).1;
      })
  fire : has_ticker s.phase ≡ true → Step cfg env s (record s { pending = true })
  cancel : Step cfg env s (record s { cancelled = true })
  stop : s.phase ≡ selecting → s.cancelled ≡ true → Step cfg env s (record s { phase = returned })
  take :
      s.phase ≡ selecting
      → s.pending ≡ true
      → Step cfg env s (record s { phase = reconciling; pending = false })
  work :
      s.phase ≡ reconciling
      → Step cfg env s (record s {
        phase = after_work (reconcile cfg s.controller.sets env s.trace).0.0;
        controller = record s.controller {
          sets = (reconcile cfg s.controller.sets env s.trace).0.1;
        };
        trace = (reconcile cfg s.controller.sets env s.trace).1;
      })
  note :
      s.phase ≡ recording
      → Step cfg env s (record s {
        phase = selecting;
        controller = record s.controller { last_reconcile_at = env.time s.trace };
        trace = clock ∷ s.trace;
      })

abbrev pub waiting : Controller → Trace → Loop
waiting c t = record {
  phase = entering;
  controller = c;
  cancelled = false;
  pending = false;
  trace = t;
}

-- What can come up.
pub data Reach (cfg : Config) (env : Env) (s : Loop) : Loop → Type 0 where
  here : Reach cfg env s s
  then : {u v : Loop} → Reach cfg env s u → Step cfg env u v → Reach cfg env s v
