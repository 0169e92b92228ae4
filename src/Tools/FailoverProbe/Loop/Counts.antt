-- ===== src/Tools/FailoverProbe/Loop/Counts.antt =====
-- What holds of the counters, the connection and the outage behind each tick that does not panic.
use redis_replication_contro.Base.{
  ℕ, suc, ◌+◌, ◌≤◌, ◌<◌, ◌≡◌, ◌≢◌, refl, Bool, true, false, if◌then◌else◌, Option, none, some, List,
  [], ◌∷◌, arith, length,
}
use redis_replication_contro.Base.Int.{ℤ}
use redis_replication_contro.Base.Result.{Result, ok, err}
use redis_replication_contro.Base.Bytes.{Bytes}
use redis_replication_contro.Tools.FailoverProbe.Client.{
  Conn, ToolError, is_panic, Identity, get, incr, identify,
}
use redis_replication_contro.Tools.FailoverProbe.Scan.{Scanned, found, crashed, no_fuel, scan_keys}
use redis_replication_contro.Tools.FailoverProbe.Settings.{ProbeConfig, build_sample_keys}
use redis_replication_contro.Tools.FailoverProbe.Loop.{
  Probe, Input, Log, first_probe, read_key, give_up, count_read, succeed, after_incr, after_get,
  prepend, exchange, discover, settle, surveyed, greeted, on_dial, on_tick, tick, Ticked,
}

-- Every tick is counted once by how it ended; the reads that succeeded are those of the ticks that
-- succeeded and of some that failed at the write; there are keys to read. An outage is being measured
-- exactly while there is no connection, once there was a tick.
pub record IsConsistent (s : Probe) : Type 0 where
  pub counted : s.stats.oks + s.stats.readonly + s.stats.disconnect + s.stats.dial_err ≡ s.tick
  pub reads_low : s.stats.oks ≤ s.stats.read_ok + s.stats.read_miss
  pub reads_high :
      s.stats.read_ok + s.stats.read_miss ≤ s.stats.oks + s.stats.readonly + s.stats.disconnect
  pub keys : 0 < length s.sample_keys
  pub measured : s.conn ≡ none → 0 < s.tick → s.outage_start ≢ none
  pub quiet : s.conn ≢ none → s.outage_start ≡ none

-- In the middle of a tick, whose end is not yet counted.
record IsPending (s : Probe) : Type 0 where
  counted : s.stats.oks + s.stats.readonly + s.stats.disconnect + s.stats.dial_err + 1 ≡ s.tick
  reads_low : s.stats.oks ≤ s.stats.read_ok + s.stats.read_miss
  reads_high :
      s.stats.read_ok + s.stats.read_miss ≤ s.stats.oks + s.stats.readonly + s.stats.disconnect
  keys : 0 < length s.sample_keys

-- The same after the read.
record HasRead (s : Probe) : Type 0 where
  counted : s.stats.oks + s.stats.readonly + s.stats.disconnect + s.stats.dial_err + 1 ≡ s.tick
  reads_low : s.stats.oks < s.stats.read_ok + s.stats.read_miss
  reads_high :
      s.stats.read_ok + s.stats.read_miss ≤ s.stats.oks + s.stats.readonly + s.stats.disconnect + 1
  keys : 0 < length s.sample_keys

count_read-HasRead : (v : Bytes) (s : Probe) → IsPending s → HasRead (count_read v s)
unfolding count_read
count_read-HasRead [] s h = ground arith
count_read-HasRead (c ∷ v) s h = ground arith

give_up-pending :
    (e : ToolError) (i : Input) (s : Probe) → IsPending s → IsConsistent (give_up e i s)
unfolding give_up
give_up-pending e i s h = ground arith

give_up-read : (e : ToolError) (i : Input) (s : Probe) → HasRead s → IsConsistent (give_up e i s)
unfolding give_up
give_up-read e i s h = ground arith

succeed-read : (i : Input) (s : Probe) (c : Conn) → HasRead s → IsConsistent (succeed i s c).0
unfolding succeed
succeed-read i s c h = ground arith

-- A tick that ends in a consistent state, unless it panics.
abbrev pub Ticks : Ticked → Type 0
Ticks none = Unit
Ticks (some (s, logs)) = IsConsistent s

if-Ticks :
    (b : Bool) (s : Probe) (logs : List Log)
    → IsConsistent s
    → Ticks (if b then none else some (s, logs))
if-Ticks true s logs h = tt
if-Ticks false s logs h = h

after_incr-read :
    (i : Input) (s : Probe) (r : Result ToolError ℤ × Conn) → HasRead s → Ticks (after_incr i s r)
unfolding after_incr
after_incr-read i s (err e, c) h = if-Ticks (is_panic e) _ _ (give_up-read e i s h)
after_incr-read i s (ok n, c) h = succeed-read i s c h

after_get-pending :
    (cfg : ProbeConfig) (i : Input) (s : Probe) (r : Result ToolError Bytes × Conn)
    → IsPending s
    → Ticks (after_get cfg i s r)
unfolding after_get
after_get-pending cfg i s (err e, c) h = if-Ticks (is_panic e) _ _ (give_up-pending e i s h)
after_get-pending cfg i s (ok v, c) h =
    after_incr-read i (count_read v s) (incr cfg.probe_key c) (count_read-HasRead v s h)

prepend-Ticks : (logs : List Log) (r : Ticked) → Ticks r → Ticks (prepend logs r)
prepend-Ticks logs none h = tt
prepend-Ticks logs (some (s, more)) h = h

exchange-pending :
    (cfg : ProbeConfig) (i : Input) (s : Probe) (c : Conn) (logs : List Log)
    → IsPending s
    → Ticks (exchange cfg i s c logs)
unfolding exchange
exchange-pending cfg i s c logs h =
    prepend-Ticks logs (after_get cfg i s (get (read_key s) c))
      (after_get-pending cfg i s (get (read_key s) c) h)

discover-IsPending : (keys : List Bytes) (s : Probe) → IsPending s → IsPending (discover keys s).0
unfolding discover
discover-IsPending [] s h = h
discover-IsPending (k ∷ ks) s h = ground arith

settle-IsPending :
    (who : Identity) (keys : List Bytes) (s : Probe) → IsPending s → IsPending (settle who keys s).0
unfolding settle
settle-IsPending who keys s h = discover-IsPending keys _ (ground arith)

surveyed-pending :
    (cfg : ProbeConfig) (i : Input) (s : Probe) (who : Identity) (r : Scanned × Conn)
    → IsPending s
    → Ticks (surveyed cfg i s who r)
unfolding surveyed
surveyed-pending cfg i s who (found keys, c) h =
    exchange-pending cfg i (settle who keys s).0 c (settle who keys s).1
      (settle-IsPending who keys s h)
surveyed-pending cfg i s who (crashed, c) h = tt
surveyed-pending cfg i s who (no_fuel, c) h = tt

greeted-pending :
    (cfg : ProbeConfig) (i : Input) (s : Probe) (r : Option Identity × Conn)
    → IsPending s
    → Ticks (greeted cfg i s r)
unfolding greeted
greeted-pending cfg i s (none, c) h = tt
greeted-pending cfg i s (some who, c) h =
    surveyed-pending cfg i s who (scan_keys cfg.data_prefix 100 c) h

on_dial-pending :
    (cfg : ProbeConfig) (i : Input) (s : Probe) (o : Option Conn)
    → IsPending s
    → s.conn ≡ none
    → Ticks (on_dial cfg i s o)
unfolding on_dial
on_dial-pending cfg i s none h closed = ground arith
on_dial-pending cfg i s (some c) h closed = greeted-pending cfg i s (identify c) h

on_tick-pending :
    (cfg : ProbeConfig) (i : Input) (s : Probe) (o : Option Conn)
    → IsPending s
    → s.conn ≡ o
    → Ticks (on_tick cfg i s o)
unfolding on_tick
on_tick-pending cfg i s none h e = on_dial-pending cfg i s i.dialed h e
on_tick-pending cfg i s (some c) h e = exchange-pending cfg i s c [] h

pub tick-Ticks : (cfg : ProbeConfig) (i : Input) (s : Probe) → IsConsistent s → Ticks (tick cfg i s)
unfolding tick
tick-Ticks cfg i s h =
    on_tick-pending cfg i (record s { tick = s.tick + 1 }) s.conn (omega arith) refl

build_sample_keys-some :
    (prefix : Bytes) (n : ℕ) (draws : ℕ → ℕ) → 0 < length (build_sample_keys prefix (suc n) draws)
unfolding build_sample_keys
build_sample_keys-some prefix n draws = omega arith

pub first_probe-IsConsistent :
    (cfg : ProbeConfig) (draws : ℕ → ℕ) → IsConsistent (first_probe cfg draws)
first_probe-IsConsistent cfg draws = record {
  counted = refl;
  reads_low = omega arith;
  reads_high = omega arith;
  keys = build_sample_keys-some cfg.data_prefix 199 draws;
  measured = λ e early. absurd (omega arith);
  quiet = λ e. refl;
}
