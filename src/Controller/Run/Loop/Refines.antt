-- ===== src/Controller/Run/Loop/Refines.antt =====
-- The loop in any order of its steps against the ticks one after the other.
use mathlib.Core.Path.{subst}
use redis_replication_contro.Base.{ℕ, zero, suc, ◌≡◌, refl, sym, ap, ap₂, ◌∙◌, ◌∷◌}
use redis_replication_contro.Base.Result.{Result, ok, err}
use redis_replication_contro.Kube.Pods.{ListError}
use redis_replication_contro.Config.{Config}
use redis_replication_contro.Controller.Sets.{Sets}
use redis_replication_contro.Controller.World.{clock, Trace, Env}
use redis_replication_contro.Controller.Reconcile.{reconcile}
use redis_replication_contro.Controller.Run.{Controller, start, after_reconcile, tick, ticks, run}
use redis_replication_contro.Controller.Run.Loop.{
  Phase, entering, selecting, reconciling, recording, Loop, Step, enter, fire, cancel, stop, take,
  work, note, Reach, here, then, waiting, after_work,
}

module _ (cfg : Config) (env : Env) where
  ticks-snoc :
      (n : ℕ) (c : Controller) (t : Trace)
      → ticks cfg (suc n) c env t ≡ tick cfg (ticks cfg n c env t).0 env (ticks cfg n c env t).1
  unfolding ticks
  ticks-snoc zero c t = refl
  ticks-snoc (suc n) c t = ticks-snoc n (tick cfg c env t).0 (tick cfg c env t).1

  run-snoc :
      (n : ℕ) (c : Controller) (t : Trace)
      → run cfg (suc n) c env t ≡ tick cfg (run cfg n c env t).0 env (run cfg n c env t).1
  unfolding run
  run-snoc n c t = ticks-snoc n (start c env t).0 (start c env t).1

  -- The controller and the events after `n` whole ticks.
  abbrev pub AfterTicks : Controller → Trace → ℕ → Controller → Trace → Type 0
  AfterTicks c t n c' t' = (c' ≡ (run cfg n c env t).0) × (t' ≡ (run cfg n c env t).1)

  -- What is true of the loop in each phase.
  abbrev pub Holds : Controller → Trace → Phase → Controller → Trace → Type 0
  Holds c t entering c' t' = (c' ≡ c) × (t' ≡ t)
  Holds c t recording c' t' =
      (n : ℕ) × (d : Controller) × (u : Trace) × AfterTicks c t n d u
      × ((reconcile cfg d.sets env u).0.0 ≡ ok tt)
      × (c' ≡ record d { sets = (reconcile cfg d.sets env u).0.1 })
      × (t' ≡ (reconcile cfg d.sets env u).1)
  Holds c t phase c' t' = (n : ℕ) × AfterTicks c t n c' t'

  at_phase :
      (c : Controller) (t : Trace) (p q : Phase) (c' : Controller) (t' : Trace)
      → p ≡ q
      → Holds c t p c' t'
      → Holds c t q c' t'
  at_phase c t p q c' t' e h = subst (λ x. Holds c t x c' t') e h

  after_reconcile-err :
      (d : Controller) (x : ListError) (r : Result ListError Unit × Sets) (u : Trace)
      → r.0 ≡ err x
      → after_reconcile d r env u ≡ (record d { sets = r.1 }, u)
  unfolding after_reconcile
  after_reconcile-err d x (err y, sets) u e = refl
  after_reconcile-err d x (ok done, sets) u e = absurd (cc)

  after_reconcile-ok :
      (d : Controller) (r : Result ListError Unit × Sets) (u : Trace)
      → r.0 ≡ ok tt
      → after_reconcile d r env u
        ≡ (record d { sets = r.1; last_reconcile_at = env.time u }, clock ∷ u)
  unfolding after_reconcile
  after_reconcile-ok d (err y, sets) u e = absurd (cc)
  after_reconcile-ok d (ok done, sets) u e = refl

  -- A tick behind `n` ticks, by what `after_reconcile` makes of it.
  next_tick :
      (c d : Controller) (t u : Trace) (n : ℕ) (d' : Controller) (u' : Trace)
      → AfterTicks c t n d u
      → after_reconcile d (reconcile cfg d.sets env u).0 env (reconcile cfg d.sets env u).1
        ≡ (d', u')
      → AfterTicks c t (suc n) d' u'
  unfolding tick
  next_tick c d t u n d' u' (h, k) e =
      let whole : run cfg (suc n) c env t ≡ (d', u') =
        run-snoc n c t ∙ ap₂ (λ x y. tick cfg x env y) (sym h) (sym k) ∙ e in
      (sym (ap (λ x. x.0) whole), sym (ap (λ x. x.1) whole))

  worked :
      (c d : Controller) (t u : Trace) (n : ℕ) (r : Result ListError Unit)
      → AfterTicks c t n d u
      → (reconcile cfg d.sets env u).0.0 ≡ r
      → Holds c t
          (after_work r)
          (record d { sets = (reconcile cfg d.sets env u).0.1 })
          (reconcile cfg d.sets env u).1
  worked c d t u n (err x) h e = (suc n, next_tick c d t u n _ _ h (after_reconcile-err d x _ _ e))
  worked c d t u n (ok done) h e = (n, d, u, h, e, refl, refl)

  entered :
      (c : Controller) (t : Trace) (c' : Controller) (t' : Trace)
      → Holds c t entering c' t'
      → Holds c t selecting (start c' env t').0 (start c' env t').1
  unfolding run ticks
  entered c t c' t' (h, k) =
      (0, (ap₂ (λ x y. (start x env y).0) h k, ap₂ (λ x y. (start x env y).1) h k))

  abbrev noted : Controller → Trace → Controller × Trace
  noted c u = (record c { last_reconcile_at = env.time u }, clock ∷ u)

  Step-Holds :
      (c : Controller) (t : Trace) {s v : Loop}
      → Step cfg env s v
      → Holds c t s.phase s.controller s.trace
      → Holds c t v.phase v.controller v.trace
  Step-Holds c t {s} (enter e) h =
      entered c t s.controller s.trace (at_phase c t s.phase entering s.controller s.trace e h)
  Step-Holds c t (fire e) h = h
  Step-Holds c t cancel h = h
  Step-Holds c t {s} (stop e x) h = at_phase c t s.phase selecting s.controller s.trace e h
  Step-Holds c t {s} (take e x) h = at_phase c t s.phase selecting s.controller s.trace e h
  Step-Holds c t {s} (work e) h =
      let (n, k) = at_phase c t s.phase reconciling s.controller s.trace e h in
      worked c s.controller t s.trace n _ k refl
  Step-Holds c t {s} (note e) h =
      let (n, d, u, k, good, x, y) = at_phase c t s.phase recording s.controller s.trace e h in
      (
        suc n,
        next_tick c d t u n _ _ k
            (after_reconcile-ok d (reconcile cfg d.sets env u).0 _ good ∙ sym (ap₂ noted x y)),
      )

  -- However the loop's steps, the ticks of the ticker and the cancellation are ordered, the loop is in step
  -- with `run`: before `Run` nothing has happened; at the select, in `reconcile` and behind its return
  -- the controller and the events are those of some number of whole ticks one after the other; and
  -- between a successful `reconcile` and the lock they are those of whole ticks and that `reconcile`.
  pub loop-refines-run :
      (c : Controller) (t : Trace) {s : Loop}
      → Reach cfg env (waiting c t) s
      → Holds c t s.phase s.controller s.trace
  loop-refines-run c t here = (refl, refl)
  loop-refines-run c t (then r x) = Step-Holds c t x (loop-refines-run c t r)
