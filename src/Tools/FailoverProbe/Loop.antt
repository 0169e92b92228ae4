-- ===== src/Tools/FailoverProbe/Loop.antt =====
-- The loop of `main` in tools/failover-probe/main.go, a tick at a time. The logs that tell of a change
-- are the output of a tick; the periodic ones are left out. The counters are natural numbers: an `int64`
-- would take 2^63 ticks to overflow.
pub mod Counts
pub mod Runs
pub mod Outage
use redis_replication_contro.Base.{
  ℕ, zero, suc, ◌+◌, ◌%◌, Bool, true, false, not, ◌&&◌, Option, none, some, List, [], ◌∷◌, ◌++◌,
  if◌then◌else◌, length,
}
use redis_replication_contro.Base.Int.{ℤ, sub_ℕ}
use redis_replication_contro.Base.Result.{Result, ok, err}
use redis_replication_contro.Base.Bytes.{Bytes, bytes_eq, is_empty}
use redis_replication_contro.Tools.FailoverProbe.Client.{
  Conn, ToolError, Identity, get, incr, identify, is_panic, is_read_only, short,
}
use redis_replication_contro.Tools.FailoverProbe.Scan.{Scanned, found, crashed, no_fuel, scan_keys}
use redis_replication_contro.Tools.FailoverProbe.Settings.{ProbeConfig, or_else, build_sample_keys}

pub record Stats : Type 0 where
  pub oks : ℕ
  pub readonly : ℕ
  pub disconnect : ℕ
  pub dial_err : ℕ
  pub read_ok : ℕ
  pub read_miss : ℕ

-- The variables of `main`. `none` is the zero time.
pub record Probe : Type 0 where
  pub conn : Option Conn
  pub backend : Bytes
  pub outage_start : Option ℕ
  pub stats : Stats
  pub tick : ℕ
  pub sample_keys : List Bytes

-- What the world does in a tick: the connection that `dial` gives if it is called, and the clock where
-- a failure is noted and where a recovery is logged.
pub record Input : Type 0 where
  pub dialed : Option Conn
  pub failed_at : ℕ
  pub recovered_at : ℕ

pub data Log : Type 0 where
  dial_failed : Log
  endpoint_changed : Bytes → Bytes → Log
  connected reconnected : Bytes → Log
  scanned : ℕ → Log
  read_rejected read_failed : Bytes → Log
  write_rejected write_failed : Log
  recovered : ℤ → Log

abbrev pub first_probe : ProbeConfig → (ℕ → ℕ) → Probe
first_probe cfg draws = record {
  conn = none;
  backend = [];
  outage_start = none;
  stats = record {
    oks = 0;
    readonly = 0;
    disconnect = 0;
    dial_err = 0;
    read_ok = 0;
    read_miss = 0;
  };
  tick = 0;
  sample_keys = build_sample_keys cfg.data_prefix 200 draws;
}

nth_or : List Bytes → ℕ → Bytes → Bytes
nth_or [] i def = def
nth_or (k ∷ ks) zero def = k
nth_or (k ∷ ks) (suc i) def = nth_or ks i def

-- `sampleKeys[int(tick)%len(sampleKeys)]`, which panics for an empty list; here it is "" then.
unfoldable pub read_key : Probe → Bytes
unfolding nth_or
read_key s = nth_or s.sample_keys (s.tick % length s.sample_keys) []

-- What a tick leaves, with its logs; `none` if a reply made `readReply` panic, which ends the process.
abbrev pub Ticked : Type 0
Ticked = Option (Probe × List Log)

-- noteFailure
abbrev note_failure : Input → Probe → Probe
note_failure i s = record s { outage_start = some (or_else s.outage_start i.failed_at) }

-- A failed read or write: it is counted by its kind, and the connection is closed.
pub give_up : ToolError → Input → Probe → Probe
give_up e i s =
    let st = s.stats in
    let counted =
      if is_read_only e
      then record st { readonly = st.readonly + 1 }
      else record st { disconnect = st.disconnect + 1 } in
    record (note_failure i s) { stats = counted; conn = none }

pub count_read : Bytes → Probe → Probe
count_read [] s =
    let st = s.stats in record s { stats = record st { read_miss = st.read_miss + 1 } }
count_read (c ∷ v) s =
    let st = s.stats in record s { stats = record st { read_ok = st.read_ok + 1 } }

recovery : Option ℕ → ℕ → List Log
recovery none t = []
recovery (some since) t = recovered (sub_ℕ t since) ∷ []

pub succeed : Input → Probe → Conn → Probe × List Log
unfolding recovery
succeed i s c =
    let st = s.stats in
    (
      record s { stats = record st { oks = st.oks + 1 }; conn = some c; outage_start = none },
      recovery s.outage_start i.recovered_at,
    )

pub after_incr : Input → Probe → Result ToolError ℤ × Conn → Ticked
after_incr i s (err e, c) =
    let log = if is_read_only e then write_rejected else write_failed in
    if is_panic e then none else some (give_up e i s, log ∷ [])
after_incr i s (ok n, c) = some (succeed i s c)

pub after_get : ProbeConfig → Input → Probe → Result ToolError Bytes × Conn → Ticked
unfolding give_up count_read after_incr
after_get cfg i s (err e, c) =
    let log = if is_read_only e then read_rejected (read_key s) else read_failed (read_key s) in
    if is_panic e then none else some (give_up e i s, log ∷ [])
after_get cfg i s (ok val, c) = after_incr i (count_read val s) (incr cfg.probe_key c)

abbrev pub prepend : List Log → Ticked → Ticked
prepend logs none = none
prepend logs (some (s, more)) = some (s, logs ++ more)

-- The read and the write of a tick, with the logs so far.
pub exchange : ProbeConfig → Input → Probe → Conn → List Log → Ticked
unfolding after_get
exchange cfg i s c logs = prepend logs (after_get cfg i s (get (read_key s) c))

greeting : Bytes → Bytes → Log
greeting backend id =
    if not (is_empty backend) && (not (is_empty id) && not (bytes_eq id backend))
    then endpoint_changed (short id) (short backend)
    else if is_empty backend
    then connected (short id)
    else reconnected (short id)

abbrev new_backend : Bytes → Bytes → Bytes
new_backend backend id = if is_empty id then backend else id

discover : List Bytes → Probe → Probe × List Log
discover [] s = (s, [])
discover (k ∷ ks) s = (record s { sample_keys = k ∷ ks }, scanned (length (k ∷ ks)) ∷ [])

-- After a new connection has told who it is, and which keys it holds.
pub settle : Identity → List Bytes → Probe → Probe × List Log
unfolding discover greeting
settle who keys s =
    let (s', logs) = discover keys (record s { backend = new_backend s.backend who.run_id }) in
    (s', greeting s.backend who.run_id ∷ logs)

-- The scan never lacks fuel.
pub surveyed : ProbeConfig → Input → Probe → Identity → Scanned × Conn → Ticked
unfolding exchange settle
surveyed cfg i s who (found keys, c) =
    let (s', logs) = settle who keys s in exchange cfg i s' c logs
surveyed cfg i s who (crashed, c) = none
surveyed cfg i s who (no_fuel, c) = none

pub greeted : ProbeConfig → Input → Probe → Option Identity × Conn → Ticked
unfolding surveyed
greeted cfg i s (none, c) = none
greeted cfg i s (some who, c) = surveyed cfg i s who (scan_keys cfg.data_prefix 100 c)

pub on_dial : ProbeConfig → Input → Probe → Option Conn → Ticked
unfolding greeted
on_dial cfg i s none =
    let st = s.stats in
    some (
      note_failure i (record s { stats = record st { dial_err = st.dial_err + 1 } }),
      dial_failed ∷ [],
    )
on_dial cfg i s (some c) = greeted cfg i s (identify c)

pub on_tick : ProbeConfig → Input → Probe → Option Conn → Ticked
unfolding on_dial
on_tick cfg i s none = on_dial cfg i s i.dialed
on_tick cfg i s (some c) = exchange cfg i s c []

pub tick : ProbeConfig → Input → Probe → Ticked
unfolding on_tick
tick cfg i s = on_tick cfg i (record s { tick = s.tick + 1 }) s.conn

abbrev pub after_tick : (Probe → Option Probe) → Ticked → Option Probe
after_tick next none = none
after_tick next (some (s, logs)) = next s

-- The ticks up to a signal, one input for each, or up to a panic.
pub ticks : ProbeConfig → List Input → Probe → Option Probe
unfolding tick
ticks cfg [] s = some s
ticks cfg (i ∷ is) s = after_tick (ticks cfg is) (tick cfg i s)
