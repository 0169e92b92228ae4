-- ===== src/Controller/Run.antt =====
-- `Controller`, `New`, `Run` and `Ready` of internal/controller/controller.go. The mutex makes the two
-- readiness fields one value, which a tick or a probe of the health server sees before or after a change.
-- A run is its ticks up to the cancellation of its context.
pub mod Readiness
pub mod Loop
use redis_replication_contro.Base.{
  ℕ, zero, suc, ◌+◌, ◌*◌, Bool, true, false, Option, none, some, List, [], ◌∷◌, if◌then◌else◌,
}
use redis_replication_contro.Base.Int.{ℤ, pos, negsuc, sub_ℕ, ltb_ℤ, wrap64}
use redis_replication_contro.Base.Result.{Result, ok, err}
use redis_replication_contro.Kube.Pods.{ListError}
use redis_replication_contro.Config.{Config}
use redis_replication_contro.Controller.Sets.{Sets}
use redis_replication_contro.Controller.World.{Action, ◌>>=◌, pure, now}
use redis_replication_contro.Controller.Reconcile.{reconcile}

-- `last_reconcile_at` is a reading of the clock; it is 0 until `Run` sets it, and is not read before.
pub record Controller : Type 0 where
  pub sets : Sets
  pub started : Bool
  pub last_reconcile_at : ℕ

-- New
abbrev pub new_controller : Controller
new_controller = record { sets = []; started = false; last_reconcile_at = 0 }

-- The product of a duration and 3, an `int64`.
abbrev pub triple : ℤ → ℤ
triple (pos n) = wrap64 (pos (3 * n))
triple (negsuc n) = wrap64 (negsuc (3 * n + 2))

-- Ready, at a reading of the clock.
unfoldable pub ready : Config → Controller → ℕ → Bool
ready cfg c t =
    if c.started then ltb_ℤ (sub_ℕ t c.last_reconcile_at) (triple cfg.reconcile_interval) else true

-- The beginning of Run.
unfoldable pub start : Controller → Action Controller
start c = do t ← now; pure (record { sets = c.sets; started = true; last_reconcile_at = t })

unfoldable pub after_reconcile : Controller → Result ListError Unit × Sets → Action Controller
after_reconcile c (err e, sets) = pure (record c { sets = sets })
after_reconcile c (ok done, sets) = do
  t ← now
  pure (record c { sets = sets; last_reconcile_at = t })

-- One tick of the loop; an error is logged.
unfoldable pub tick : Config → Controller → Action Controller
unfolding after_reconcile
tick cfg c = reconcile cfg c.sets >>= after_reconcile c

unfoldable pub ticks : Config → ℕ → Controller → Action Controller
unfolding tick
ticks cfg zero c = pure c
ticks cfg (suc n) c = do c' ← tick cfg c; ticks cfg n c'

-- The first `n` ticks.
unfoldable pub run : Config → ℕ → Controller → Action Controller
unfolding start ticks
run cfg n c = do c' ← start c; ticks cfg n c'
