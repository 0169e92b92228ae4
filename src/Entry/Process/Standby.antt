-- ===== src/Entry/Process/Standby.antt =====
-- What the health server answers before the loop has started.
use mathlib.Core.Path.{subst}
use redis_replication_contro.Base.{◌≡◌, refl, ap, ◌∙◌, true, false, All, ℕ}
use redis_replication_contro.Base.Result.{Result, ok, err}
use redis_replication_contro.Config.{Config}
use redis_replication_contro.Kube.Pods.{ListError}
use redis_replication_contro.Controller.Run.{Controller, ready}
use redis_replication_contro.Controller.Run.Loop.{Loop, entering, after_work}
use redis_replication_contro.Controller.Run.Loop
use redis_replication_contro.Controller.Run.Loop.Refines.{loop-refines-run, Holds}
use redis_replication_contro.Controller.World.{Env, Trace}
use redis_replication_contro.Entry.{Launch, config_of, handle}
use redis_replication_contro.Entry.Process.{
  Process, Reach, signal, lose, run, listen, fail, answer, shutdown, finish, begun, onwards,
}
use redis_replication_contro.Entry.Process.Ends.{process-loop}

after_work-entering : (r : Result ListError Unit) → after_work r ≡ entering → ⊥
after_work-entering (err e) h = cc
after_work-entering (ok done) h = cc

-- No step goes back to before `Run`.
step-entering :
    (cfg : Config) (env : Env) {s v : Loop}
    → Loop.Step cfg env s v
    → v.phase ≡ entering
    → s.phase ≡ entering
step-entering cfg env (Loop.enter e) h = absurd (cc)
step-entering cfg env (Loop.fire e) h = h
step-entering cfg env Loop.cancel h = h
step-entering cfg env (Loop.stop e x) h = absurd (cc)
step-entering cfg env (Loop.take e x) h = absurd (cc)
step-entering cfg env (Loop.work e) h = absurd (after_work-entering _ h)
step-entering cfg env (Loop.note e) h = absurd (cc)

module _ (l : Launch) (env : Env) (c : Controller) (t : Trace) where
  entering-ready :
      {p : Process} (moment : ℕ)
      → Reach l env c t p
      → c.started ≡ false
      → p.loop.phase ≡ entering
      → ready (config_of l) p.loop.controller moment ≡ true
  unfolding ready
  entering-ready {p} moment r off e =
      let held =
        subst (λ x. Holds (config_of l) env c t x p.loop.controller p.loop.trace) e
          (loop-refines-run (config_of l) env c t (process-loop l env c t r)) in
      ap (λ x. ready (config_of l) x moment) held.0 ∙ rw off refl

  -- A replica that waits for the lease is ready: until `Run` is called, the health server answers every
  -- path as it does for a controller that is ready. Condition: the controller is a new one.
  pub standby_is_ready :
      {p : Process}
      → Reach l env c t p
      → c.started ≡ false
      → p.loop.phase ≡ entering
      → All (λ a. a.1 ≡ handle true a.0) p.answers
  standby_is_ready begun off e = tt
  standby_is_ready (onwards r signal) off e = standby_is_ready r off e
  standby_is_ready (onwards r (lose x)) off e = standby_is_ready r off e
  standby_is_ready (onwards r (run x h)) off e =
      standby_is_ready r off (step-entering (config_of l) env x e)
  standby_is_ready (onwards r (listen addr x s)) off e = standby_is_ready r off e
  standby_is_ready (onwards r (fail x)) off e = standby_is_ready r off e
  standby_is_ready (onwards r (answer path moment x)) off e =
      (ap (λ b. handle b path) (entering-ready moment r off e), standby_is_ready r off e)
  standby_is_ready (onwards r (shutdown x y)) off e = standby_is_ready r off e
  standby_is_ready (onwards r (finish x y)) off e = standby_is_ready r off e
