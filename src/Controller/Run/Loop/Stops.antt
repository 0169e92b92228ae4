-- ===== src/Controller/Run/Loop/Stops.antt =====
-- The end of the loop.
use mathlib.Core.Path.{subst}
use redis_replication_contro.Base.{◌≡◌, refl, Bool, true}
use redis_replication_contro.Base.Result.{Result, ok, err}
use redis_replication_contro.Kube.Pods.{ListError}
use redis_replication_contro.Config.{Config}
use redis_replication_contro.Controller.World.{Trace, Env}
use redis_replication_contro.Controller.Run.{Controller}
use redis_replication_contro.Controller.Run.Loop.{
  Phase, entering, selecting, reconciling, recording, returned, Loop, Step, enter, fire, cancel,
  stop, take, work, note, Reach, here, then, waiting, after_work,
}

module _ (cfg : Config) (env : Env) where
  abbrev ReturnsCancelled : Phase → Bool → Type 0
  ReturnsCancelled returned cancelled = cancelled ≡ true
  ReturnsCancelled phase cancelled = Unit

  not_returned :
      (p q : Phase) (cancelled : Bool)
      → p ≡ q
      → ReturnsCancelled p cancelled
      → ReturnsCancelled q cancelled
  not_returned p q b e h = subst (λ x. ReturnsCancelled x b) e h

  worked-ReturnsCancelled :
      (r : Result ListError Unit) (b : Bool) → ReturnsCancelled (after_work r) b
  worked-ReturnsCancelled (err e) b = tt
  worked-ReturnsCancelled (ok done) b = tt

  cancelled-ReturnsCancelled : (p : Phase) → ReturnsCancelled p true
  cancelled-ReturnsCancelled entering = tt
  cancelled-ReturnsCancelled selecting = tt
  cancelled-ReturnsCancelled reconciling = tt
  cancelled-ReturnsCancelled recording = tt
  cancelled-ReturnsCancelled returned = refl

  Step-ReturnsCancelled :
      {s v : Loop}
      → Step cfg env s v
      → ReturnsCancelled s.phase s.cancelled
      → ReturnsCancelled v.phase v.cancelled
  Step-ReturnsCancelled (enter e) h = tt
  Step-ReturnsCancelled (fire e) h = h
  Step-ReturnsCancelled {s} cancel h = cancelled-ReturnsCancelled s.phase
  Step-ReturnsCancelled (stop e x) h = x
  Step-ReturnsCancelled (take e x) h = tt
  Step-ReturnsCancelled {s} (work e) h = worked-ReturnsCancelled _ s.cancelled
  Step-ReturnsCancelled (note e) h = tt

  reach-ReturnsCancelled :
      (c : Controller) (t : Trace) {s : Loop}
      → Reach cfg env (waiting c t) s
      → ReturnsCancelled s.phase s.cancelled
  reach-ReturnsCancelled c t here = tt
  reach-ReturnsCancelled c t (then r x) = Step-ReturnsCancelled x (reach-ReturnsCancelled c t r)

  -- What stays as it is behind the return.
  abbrev pub IsOver : Loop → Loop → Type 0
  IsOver s v = (v.phase ≡ returned) × (v.controller ≡ s.controller) × (v.trace ≡ s.trace)

  Step-IsOver : (s : Loop) {u v : Loop} → Step cfg env u v → IsOver s u → IsOver s v
  Step-IsOver s (enter e) (p, c, t) = absurd (cc)
  Step-IsOver s (fire e) (p, c, t) = (p, c, t)
  Step-IsOver s cancel (p, c, t) = (p, c, t)
  Step-IsOver s (stop e x) (p, c, t) = absurd (cc)
  Step-IsOver s (take e x) (p, c, t) = absurd (cc)
  Step-IsOver s (work e) (p, c, t) = absurd (cc)
  Step-IsOver s (note e) (p, c, t) = absurd (cc)

  reach-IsOver : (s : Loop) {v : Loop} → s.phase ≡ returned → Reach cfg env s v → IsOver s v
  reach-IsOver s e here = (e, refl, refl)
  reach-IsOver s e (then r x) = Step-IsOver s x (reach-IsOver s e r)

  -- `Run` returns only when its context is cancelled. From then on no step changes the controller or
  -- sends anything, and `Run` is not left.
  pub run_returns_last :
      (c : Controller) (t : Trace) {s v : Loop}
      → Reach cfg env (waiting c t) s
      → s.phase ≡ returned
      → Reach cfg env s v
      → (s.cancelled ≡ true)
        × (v.phase ≡ returned)
        × (v.controller ≡ s.controller)
        × (v.trace ≡ s.trace)
  run_returns_last c t {s} {v} r e w =
      let over = reach-IsOver s e w in
      (
        not_returned s.phase returned s.cancelled e (reach-ReturnsCancelled c t r),
        over.0,
        over.1,
        over.2,
      )

  reach-first : {s u v : Loop} → Step cfg env s u → Reach cfg env u v → Reach cfg env s v
  reach-first x here = then here x
  reach-first x (then r y) = then (reach-first x r) y

  -- The step is neither a tick of the ticker nor one that takes a tick up.
  abbrev pub IsTickless : {s v : Loop} → Step cfg env s v → Type 0
  IsTickless (enter e) = Unit
  IsTickless (fire e) = ⊥
  IsTickless cancel = Unit
  IsTickless (stop e x) = Unit
  IsTickless (take e x) = ⊥
  IsTickless (work e) = Unit
  IsTickless (note e) = Unit

  abbrev pub AreTickless : {s v : Loop} → Reach cfg env s v → Type 0
  AreTickless here = Unit
  AreTickless (then r x) = AreTickless r × IsTickless x

  first-AreTickless :
      {s u v : Loop} (x : Step cfg env s u) (r : Reach cfg env u v)
      → IsTickless x
      → AreTickless r
      → AreTickless (reach-first x r)
  unfolding reach-first
  first-AreTickless x here h k = (tt, h)
  first-AreTickless x (then r y) h (k, l) = (first-AreTickless x r h k, l)

  -- The loop can return by steps without a tick.
  abbrev pub CanReturn : Loop → Type 0
  CanReturn s = (v : Loop) × (r : Reach cfg env s v) × (v.phase ≡ returned) × AreTickless r

  first-CanReturn : {s u : Loop} (x : Step cfg env s u) → IsTickless x → CanReturn u → CanReturn s
  first-CanReturn x h (v, r, e, k) = (v, reach-first x r, e, first-AreTickless x r h k)

  selecting-CanReturn : (s : Loop) → s.cancelled ≡ true → s.phase ≡ selecting → CanReturn s
  selecting-CanReturn s x e = (record s { phase = returned }, then here (stop e x), refl, (tt, tt))

  recording-CanReturn : (s : Loop) → s.cancelled ≡ true → s.phase ≡ recording → CanReturn s
  recording-CanReturn s x e = first-CanReturn (note e) tt (selecting-CanReturn _ x refl)

  worked-CanReturn :
      (s : Loop) (r : Result ListError Unit)
      → s.cancelled ≡ true
      → s.phase ≡ after_work r
      → CanReturn s
  worked-CanReturn s (err y) x e = selecting-CanReturn s x e
  worked-CanReturn s (ok done) x e = recording-CanReturn s x e

  phase-CanReturn : (s : Loop) (p : Phase) → s.cancelled ≡ true → s.phase ≡ p → CanReturn s
  phase-CanReturn s entering x e = first-CanReturn (enter e) tt (selecting-CanReturn _ x refl)
  phase-CanReturn s selecting x e = selecting-CanReturn s x e
  phase-CanReturn s reconciling x e = first-CanReturn (work e) tt (worked-CanReturn _ _ x refl)
  phase-CanReturn s recording x e = recording-CanReturn s x e
  phase-CanReturn s returned x e = (s, here, e, tt)

  -- Wherever the loop stands, if its context is cancelled, then it can go on to the return of `Run` by
  -- steps of which none is a tick of the ticker and none takes a tick up.
  pub cancelled-CanReturn : (s : Loop) → s.cancelled ≡ true → CanReturn s
  cancelled-CanReturn s x = phase-CanReturn s s.phase x refl
