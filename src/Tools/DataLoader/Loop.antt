-- ===== src/Tools/DataLoader/Loop.antt =====
-- `main` of tools/data-loader/main.go, a round of its loop at a time. The logs are left out.
pub mod Flushes
pub mod Kept
pub mod Redial
use redis_replication_contro.Base.{
  ℕ, zero, suc, ◌+◌, ◌*◌, ◌^◌, Bool, true, false, ◌||◌, not, Option, none, some, List, [], ◌∷◌,
  ◌++◌, if◌then◌else◌, length,
}
use redis_replication_contro.Base.Int.{ℤ, pos, negsuc, ltb_ℤ, wrap64}
use redis_replication_contro.Base.Bytes.{Bytes}
use redis_replication_contro.Tools.FailoverProbe.Client.{Conn}
use redis_replication_contro.Tools.DataLoader.Client.{Pipe, identify}
use redis_replication_contro.Tools.DataLoader.Settings.{LoaderConfig}
use redis_replication_contro.Tools.DataLoader.Flush.{
  Batch, Tally, Loader, Flushed, flushed, broken, panicked, flush,
}

abbrev times : ℤ → ℕ → ℤ
times (pos n) k = pos (n * k)
times (negsuc n) zero = pos 0
times (negsuc n) (suc k) = negsuc (n * suc k + k)

abbrev target_bytes : LoaderConfig → ℤ
target_bytes cfg = wrap64 (times cfg.target_gb (2 ^ 30))

abbrev pub batch_limit : LoaderConfig → ℤ
batch_limit cfg = wrap64 (times cfg.batch_size 2)

unfoldable pub has_target : LoaderConfig → Tally → Bool
has_target cfg t = not (ltb_ℤ (pos t.written) (target_bytes cfg))

-- `len(batch)` is twice the number of pairs.
unfoldable pub is_due : LoaderConfig → Loader → Bool
is_due cfg s = not (ltb_ℤ (pos (2 * length s.batch)) (batch_limit cfg)) || has_target cfg s.tally

-- What the world does in a round: whether a signal has come, the pair that `genKeyValue` makes of the
-- prefix and the index, and the connection that `dial` gives if it is called.
pub record Input : Type 0 where
  pub stop : Bool
  pub generated : Bytes → ℕ → Bytes × Bytes
  pub dialed : Option Pipe

-- Where the program is after a round: in its loop, past it, or gone.
pub data Phase : Type 0 where
  looping leaving gone : Phase

-- The connection after `identify`, `none` if that panics.
greeted : Pipe → Option (Bytes × Bytes) × Conn → Option Pipe
greeted p (none, c) = none
greeted p (some ids, c) = some (record p { line = c })

greet : Pipe → Option Pipe
unfolding greeted
greet p = greeted p (identify p.line)

resume : Loader → Option Pipe → Loader × Phase
resume s none = (record s { conn = none }, gone)
resume s (some p) = (record s { conn = some p }, looping)

-- `dial` gives a nil connection with its error.
pub redial : Loader → Option Pipe → Loader × Phase
unfolding greet resume
redial s none = (record s { conn = none }, looping)
redial s (some p) = resume s (greet p)

pub after_flush : LoaderConfig → Input → Loader × Flushed → Loader × Phase
unfolding redial
after_flush cfg i (s, flushed) = (s, if has_target cfg s.tally then leaving else looping)
after_flush cfg i (s, broken) = redial s i.dialed
after_flush cfg i (s, panicked) = (s, gone)

unfoldable pub add : LoaderConfig → Input → Loader → Loader
add cfg i s = record s { batch = s.batch ++ i.generated cfg.key_prefix s.idx ∷ []; idx = s.idx + 1 }

pub round : LoaderConfig → Input → Loader → Loader × Phase
unfolding after_flush add is_due
round cfg i s =
    let s1 = add cfg i s in
    if i.stop
    then (s, leaving)
    else if is_due cfg s1
    then after_flush cfg i (flush s1)
    else (s1, looping)

abbrev pub after_round : (Loader → Loader × Phase) → Loader × Phase → Loader × Phase
after_round next (s, looping) = next s
after_round next (s, leaving) = (s, leaving)
after_round next (s, gone) = (s, gone)

-- The loop up to the round that leaves it, if there is one.
pub rounds : LoaderConfig → List Input → Loader → Loader × Phase
unfolding round
rounds cfg [] s = (s, looping)
rounds cfg (i ∷ is) s = after_round (rounds cfg is) (round cfg i s)

-- The last flush, whose failure is only logged.
pub final_flush : Loader × Flushed → Loader × Phase
final_flush (s, flushed) = (s, leaving)
final_flush (s, broken) = (s, leaving)
final_flush (s, panicked) = (s, gone)

pub finish : Loader × Phase → Loader × Phase
unfolding final_flush
finish (s, looping) = (s, looping)
finish (s, leaving) = final_flush (flush s)
finish (s, gone) = (s, gone)

abbrev pub first_loader : Option Pipe → Loader
first_loader dialed = record {
  conn = dialed;
  batch = [];
  tally = record { written = 0; keys = 0; errs = 0 };
  idx = 0;
}

pub load_greeted : LoaderConfig → List Input → Option Pipe → Loader × Phase
unfolding rounds finish
load_greeted cfg is none = (first_loader none, gone)
load_greeted cfg is (some p) =
    if ltb_ℤ (batch_limit cfg) (pos 0)
    then (first_loader (some p), gone)
    else finish (rounds cfg is (first_loader (some p)))

-- The program with the connection of its first `dial`, whose failure ends it; a negative capacity of the
-- batch makes `make` panic.
pub load : LoaderConfig → Option Pipe → List Input → Loader × Phase
unfolding greet load_greeted
load cfg none is = (first_loader none, gone)
load cfg (some p) is = load_greeted cfg is (greet p)
