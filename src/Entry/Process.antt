-- ===== src/Entry/Process.antt =====
-- cmd/main.go from the start on: the goroutine of main in `controller.Run`, that of `serveHealth` with its
-- HTTP server, and the one that shuts the server down; signals come at any time. The HTTP server, the
-- signals and the leader election's context are the libraries': a signal cancels the context of main, and
-- the election cancels the context of `onStarted` with it or when the lease is lost. The error of a
-- context that was cancelled is `context.Canceled`. `Run` may be
-- entered at any time, as the election has it.
pub mod Ends
pub mod Standby
mod Tests
use redis_replication_contro.Base.{
  ◌≡◌, Bool, true, false, not, ◌||◌, Option, none, some, List, [], ◌∷◌, ℕ,
}
use redis_replication_contro.Base.Bytes.{Bytes}
use redis_replication_contro.Controller.Run.{Controller, ready}
use redis_replication_contro.Controller.Run.Loop.{Loop, returned}
use redis_replication_contro.Controller.Run.Loop
use redis_replication_contro.Controller.World.{Env, Trace}
use redis_replication_contro.Entry.{
  Launch, elected, alone, config_of, serve_health, Response, handle,
}

-- ctx.Err()
pub data ContextError : Type 0 where
  canceled deadline_exceeded : ContextError

-- The closure `run`: is the error of `Run` logged?
pub is_logged : Option ContextError → Bool
is_logged none = false
is_logged (some canceled) = false
is_logged (some deadline_exceeded) = true

-- What `ListenAndServe` returns, and whether that is logged.
pub data ServeError : Type 0 where
  server_closed listen_failed : ServeError

pub serve_logged : Option ServeError → Bool
serve_logged none = false
serve_logged (some server_closed) = false
serve_logged (some listen_failed) = true

-- In `ListenAndServe`, or what that has returned.
pub data Serving : Type 0 where
  unserved listening : Serving
  ended : ServeError → Serving

-- Once it listens, requests in flight are answered also while the server shuts down.
abbrev pub is_served : Serving → Bool
is_served unserved = false
is_served listening = true
is_served (ended e) = true

-- The errors that main and `serveHealth` log themselves. What the controller logs while it runs, such as
-- a failed reconcile, is not among them.
pub data Complaint : Type 0 where
  stopped_with_error server_error : Complaint

pub complain : Bool → Complaint → List Complaint → List Complaint
complain true x errors = x ∷ errors
complain false x errors = errors

-- The answers of the health server and the logged errors, the newest first. `finished` is the return of
-- the closure `run`.
pub record Process : Type 0 where
  pub loop : Loop
  pub signalled : Bool
  pub lease_lost : Bool
  pub serving : Serving
  pub answers : List (Bytes × Option Response)
  pub finished : Bool
  pub errors : List Complaint

abbrev pub is_elected : Launch → Bool
is_elected (elected cfg) = true
is_elected (alone cfg) = false

abbrev pub is_done : Process → Bool
is_done p = p.signalled || p.lease_lost

pub data Step (l : Launch) (env : Env) (p : Process) : Process → Type 0 where
  signal : Step l env p (record p { signalled = true })
  lose : is_elected l ≡ true → Step l env p (record p { lease_lost = true })
  run :
      {v : Loop}
      → Loop.Step (config_of l) env p.loop v
      → (v.cancelled ≡ true → is_done p ≡ true)
      → Step l env p (record p { loop = v })
  listen :
      (addr : Bytes)
      → p.serving ≡ unserved
      → serve_health (config_of l).health_probe_addr ≡ some addr
      → Step l env p (record p { serving = listening })
  fail :
      p.serving ≡ listening
      → Step l env p (record p {
        serving = ended listen_failed;
        errors = complain (serve_logged (some listen_failed)) server_error p.errors;
      })
  answer :
      (path : Bytes) (moment : ℕ)
      → is_served p.serving ≡ true
      → Step l env p (record p {
        answers = (path, handle (ready (config_of l) p.loop.controller moment) path) ∷ p.answers;
      })
  shutdown :
      p.signalled ≡ true
      → p.serving ≡ listening
      → Step l env p (record p {
        serving = ended server_closed;
        errors = complain (serve_logged (some server_closed)) server_error p.errors;
      })
  finish :
      p.loop.phase ≡ returned
      → p.finished ≡ false
      → Step l env p (record p {
        finished = true;
        errors = complain (is_logged (some canceled)) stopped_with_error p.errors;
      })

abbrev pub launched : Controller → Trace → Process
launched c t = record {
  loop = Loop.waiting c t;
  signalled = false;
  lease_lost = false;
  serving = unserved;
  answers = [];
  finished = false;
  errors = [];
}

pub data Reach (l : Launch) (env : Env) (c : Controller) (t : Trace) : Process → Type 0 where
  begun : Reach l env c t (launched c t)
  onwards : {p q : Process} → Reach l env c t p → Step l env p q → Reach l env c t q
