-- ===== src/Controller/Run/Loop/Stale.antt =====
-- What the readiness probe sees of a loop whose listings fail.
use redis_replication_contro.Base.{ℕ, ◌+◌, ◌*◌, ◌^◌, ◌<◌, ltb, ◌≡◌, ◌≢◌, refl, ap, ◌∙◌}
use redis_replication_contro.Base.Int.{pos}
use redis_replication_contro.Base.Result.{ok}
use redis_replication_contro.Config.{Config}
use redis_replication_contro.Controller.Sets.{Sets}
use redis_replication_contro.Controller.World.{Trace, Env}
use redis_replication_contro.Controller.Reconcile.{reconcile, reconcile_pods}
use redis_replication_contro.Controller.Run.{Controller, ready}
use redis_replication_contro.Controller.Run.Readiness.{ListingFails, ready-run_fails}
use redis_replication_contro.Controller.Run.Loop.{
  Phase, entering, selecting, reconciling, recording, returned, Loop, Reach, waiting,
}
use redis_replication_contro.Controller.Run.Loop.Refines.{AfterTicks, Holds, loop-refines-run}

module _ (cfg : Config) (env : Env) where
  reconcile_fails :
      (sets : Sets) (t : Trace) → ListingFails cfg env → (reconcile cfg sets env t).0.0 ≢ ok tt
  unfolding reconcile reconcile_pods
  reconcile_fails sets t fails = let (e, h) = fails t in rw h (λ x. cc)

  ready-AfterTicks :
      (c : Controller) (t : Trace) (n i moment : ℕ) (c' : Controller) (t' : Trace)
      → AfterTicks cfg env c t n c' t'
      → cfg.reconcile_interval ≡ pos i
      → 3 * i < 2 ^ 63
      → ListingFails cfg env
      → ready cfg c' moment ≡ ltb moment (env.time t + 3 * i)
  ready-AfterTicks c t n i moment c' t' h e fits fails =
      ap (λ x. ready cfg x moment) h.0 ∙ ready-run_fails cfg env n i c t moment e fits fails

  by_phase :
      (c : Controller) (t : Trace) (i moment : ℕ) (p : Phase) (c' : Controller) (t' : Trace)
      → Holds cfg env c t p c' t'
      → p ≢ entering
      → cfg.reconcile_interval ≡ pos i
      → 3 * i < 2 ^ 63
      → ListingFails cfg env
      → ready cfg c' moment ≡ ltb moment (env.time t + 3 * i)
  by_phase c t i moment entering c' t' h on e fits fails = absurd (on refl)
  by_phase c t i moment selecting c' t' (n, h) on e fits fails =
      ready-AfterTicks c t n i moment c' t' h e fits fails
  by_phase c t i moment reconciling c' t' (n, h) on e fits fails =
      ready-AfterTicks c t n i moment c' t' h e fits fails
  by_phase c t i moment recording c' t' (n, d, u, k, good, x, y) on e fits fails =
      absurd (reconcile_fails d.sets u fails good)
  by_phase c t i moment returned c' t' (n, h) on e fits fails =
      ready-AfterTicks c t n i moment c' t' h e fits fails

  -- If every listing fails, then wherever a loop stands whose `Run` was called, and whatever ticks and
  -- cancellations came in which order, it is ready at exactly the moments before three intervals have
  -- passed since its start. Condition: three intervals fit in a 64-bit duration.
  pub loop_turns_stale :
      (c : Controller) (t : Trace) {s : Loop} (i moment : ℕ)
      → Reach cfg env (waiting c t) s
      → s.phase ≢ entering
      → cfg.reconcile_interval ≡ pos i
      → 3 * i < 2 ^ 63
      → ListingFails cfg env
      → ready cfg s.controller moment ≡ ltb moment (env.time t + 3 * i)
  loop_turns_stale c t {s} i moment r on e fits fails =
      by_phase c t i moment s.phase s.controller s.trace (loop-refines-run cfg env c t r) on e fits
        fails
