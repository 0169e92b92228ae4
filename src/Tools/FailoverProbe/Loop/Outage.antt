-- ===== src/Tools/FailoverProbe/Loop/Outage.antt =====
-- How a tick ends, and what it leaves of the connection and the outage.
use redis_replication_contro.Base.{
  ℕ, ◌+◌, ◌≡◌, refl, ap, true, if◌then◌else◌, Bool-cases, ◌++◌, ◌⊎◌, inl, inr, Option, none, some,
  List, [], ◌∷◌, arith,
}
use redis_replication_contro.Base.Int.{ℤ}
use redis_replication_contro.Base.Result.{Result, ok, err}
use redis_replication_contro.Base.Bytes.{Bytes}
use redis_replication_contro.Tools.FailoverProbe.Client.{
  Conn, ToolError, is_panic, Identity, get, incr, identify,
}
use redis_replication_contro.Tools.FailoverProbe.Scan.{Scanned, found, crashed, no_fuel, scan_keys}
use redis_replication_contro.Tools.FailoverProbe.Scan.Ends.{Within, scan_keys_total}
use redis_replication_contro.Tools.FailoverProbe.Client.Crash.{
  Panics, Panics-suffix, Guarded, get-Guarded, incr-Guarded, identify-Panics,
}
use redis_replication_contro.Redis.Resp.Suffix.{IsSuffix, IsSuffix-trans}
use redis_replication_contro.Tools.FailoverProbe.Settings.{ProbeConfig, or_else}
use redis_replication_contro.Tools.FailoverProbe.Loop.{
  Probe, Input, Log, read_key, give_up, count_read, succeed, after_incr, after_get, prepend,
  exchange, discover, settle, surveyed, greeted, on_dial, on_tick, tick, Ticked,
}

-- The end of a tick that began with so many successes, such an outage, and the bytes `t` to come.
abbrev Succeeds : ℕ → Bytes → Probe → Type 0
Succeeds oks t s' =
    (s'.stats.oks ≡ oks + 1)
    × ((c : Conn) × (s'.conn ≡ some c) × IsSuffix c.incoming t)
    × (s'.outage_start ≡ none)

abbrev Fails : ℕ → Option ℕ → Input → Probe → Type 0
Fails oks since i s' =
    (s'.stats.oks ≡ oks) × (s'.conn ≡ none) × (s'.outage_start ≡ some (or_else since i.failed_at))

-- With the bytes `t` to come, a tick succeeds or fails, or some end of them panics.
abbrev Ends : ℕ → Option ℕ → Input → Bytes → Ticked → Type 0
Ends oks since i t r =
    ((s' : Probe) × (logs : List Log) × (r ≡ some (s', logs))
      × (Succeeds oks t s' ⊎ Fails oks since i s'))
    ⊎ ((r ≡ none) × Panics t)

give_up-Fails :
    (e : ToolError) (i : Input) (s : Probe) → Fails s.stats.oks s.outage_start i (give_up e i s)
unfolding give_up
give_up-Fails e i s = (ground arith, refl, refl)

fails-Ends :
    (e : ToolError) (i : Input) (s : Probe) (logs : List Log) (t : Bytes)
    → (is_panic e ≡ true → Panics t)
    → Ends s.stats.oks s.outage_start i t (if is_panic e then none else some (give_up e i s, logs))
fails-Ends e i s logs t h = elim (Bool-cases (is_panic e)) [
  | inl p ↦ rw p (inr (refl, h p))
  | inr p ↦ rw p (inl (give_up e i s, logs, refl, inr (give_up-Fails e i s)))
]

after_incr-Ends :
    (i : Input) (s : Probe) (t : Bytes) (r : Result ToolError ℤ × Conn)
    → Guarded t r
    → Ends s.stats.oks s.outage_start i t (after_incr i s r)
unfolding after_incr succeed
after_incr-Ends i s t (err e, c) g = fails-Ends e i s _ t (g.panics e refl)
after_incr-Ends i s t (ok n, c) g = inl (_, _, refl, inl (refl, (c, refl, g.leaves), refl))

count_read-Ends :
    (v : Bytes) (i : Input) (s : Probe) (t : Bytes) (r : Ticked)
    → Ends (count_read v s).stats.oks (count_read v s).outage_start i t r
    → Ends s.stats.oks s.outage_start i t r
unfolding count_read
count_read-Ends [] i s t r h = h
count_read-Ends (c ∷ v) i s t r h = h

Ends-suffix :
    (oks : ℕ) (since : Option ℕ) (i : Input) (t u : Bytes) (r : Ticked)
    → IsSuffix t u
    → Ends oks since i t r
    → Ends oks since i u r
Ends-suffix oks since i t u r h (inl (s', logs, e, inl (o, (c, q, k), w))) =
    inl (s', logs, e, inl (o, (c, q, IsSuffix-trans c.incoming t u k h), w))
Ends-suffix oks since i t u r h (inl (s', logs, e, inr x)) = inl (s', logs, e, inr x)
Ends-suffix oks since i t u r h (inr (e, p)) = inr (e, Panics-suffix t u h p)

after_get-Ends :
    (cfg : ProbeConfig) (i : Input) (s : Probe) (t : Bytes) (r : Result ToolError Bytes × Conn)
    → Guarded t r
    → Ends s.stats.oks s.outage_start i t (after_get cfg i s r)
unfolding after_get
after_get-Ends cfg i s t (err e, c) g = fails-Ends e i s _ t (g.panics e refl)
after_get-Ends cfg i s t (ok v, c) g =
    let r = after_incr i (count_read v s) (incr cfg.probe_key c) in
    count_read-Ends v i s t r (
      Ends-suffix (count_read v s).stats.oks (count_read v s).outage_start i c.incoming t r g.leaves
        (after_incr-Ends i (count_read v s) c.incoming (incr cfg.probe_key c)
          (incr-Guarded cfg.probe_key c)))

prepend-Ends :
    (oks : ℕ) (since : Option ℕ) (i : Input) (t : Bytes) (logs : List Log) (r : Ticked)
    → Ends oks since i t r
    → Ends oks since i t (prepend logs r)
prepend-Ends oks since i t logs r (inl (s', more, e, h)) =
    inl (s', logs ++ more, ap (prepend logs) e, h)
prepend-Ends oks since i t logs r (inr (e, p)) = inr (ap (prepend logs) e, p)

exchange-Ends :
    (cfg : ProbeConfig) (i : Input) (s : Probe) (c : Conn) (logs : List Log)
    → Ends s.stats.oks s.outage_start i c.incoming (exchange cfg i s c logs)
unfolding exchange
exchange-Ends cfg i s c logs =
    prepend-Ends s.stats.oks s.outage_start i c.incoming logs
      (after_get cfg i s (get (read_key s) c))
      (after_get-Ends cfg i s c.incoming (get (read_key s) c) (get-Guarded (read_key s) c))

settle-Ends :
    (who : Identity) (keys : List Bytes) (i : Input) (s : Probe) (t : Bytes) (r : Ticked)
    → Ends (settle who keys s).0.stats.oks (settle who keys s).0.outage_start i t r
    → Ends s.stats.oks s.outage_start i t r
unfolding settle discover
settle-Ends who [] i s t r h = h
settle-Ends who (k ∷ ks) i s t r h = h

surveyed-Ends :
    (cfg : ProbeConfig) (i : Input) (s : Probe) (who : Identity) (t : Bytes) (r : Scanned × Conn)
    → Within 100 t r
    → Ends s.stats.oks s.outage_start i t (surveyed cfg i s who r)
unfolding surveyed
surveyed-Ends cfg i s who t (found keys, c) w =
    let (s', logs) = settle who keys s in
    let r = exchange cfg i s' c logs in
    settle-Ends who keys i s t r (
      Ends-suffix s'.stats.oks s'.outage_start i c.incoming t r w.leaves
        (exchange-Ends cfg i s' c logs))
surveyed-Ends cfg i s who t (crashed, c) w = elim w.result [
  | inl (ks, e, h) ↦ absurd (cc)
  | inr (e, p) ↦ inr (refl, p)
]
surveyed-Ends cfg i s who t (no_fuel, c) w = elim w.result [
  | inl (ks, e, h) ↦ absurd (cc)
  | inr (e, p) ↦ absurd (cc)
]

greeted-Ends :
    (cfg : ProbeConfig) (i : Input) (s : Probe) (t : Bytes) (r : Option Identity × Conn)
    → IsSuffix r.1.incoming t
    → (r.0 ≡ none → Panics t)
    → Ends s.stats.oks s.outage_start i t (greeted cfg i s r)
unfolding greeted
greeted-Ends cfg i s t (none, c) leaves panics = inr (refl, panics refl)
greeted-Ends cfg i s t (some who, c) leaves panics =
    let r = scan_keys cfg.data_prefix 100 c in
    Ends-suffix s.stats.oks s.outage_start i c.incoming t (surveyed cfg i s who r) leaves
      (surveyed-Ends cfg i s who c.incoming r (scan_keys_total cfg.data_prefix 100 c (omega arith)))

-- What is to come on a connection; nothing without one.
abbrev pub coming : Option Conn → Bytes
coming none = []
coming (some c) = c.incoming

on_dial-Ends :
    (cfg : ProbeConfig) (i : Input) (s : Probe) (o : Option Conn)
    → s.conn ≡ none
    → Ends s.stats.oks s.outage_start i (coming o) (on_dial cfg i s o)
unfolding on_dial
on_dial-Ends cfg i s none closed = inl (_, _, refl, inr (refl, closed, refl))
on_dial-Ends cfg i s (some c) closed =
    let (leaves, panics) = identify-Panics c in
    greeted-Ends cfg i s c.incoming (identify c) leaves panics

-- The bytes to come in a tick: those of the connection that it begins with, or else of the dialled one.
abbrev pub arriving : Input → Option Conn → Bytes
arriving i none = coming i.dialed
arriving i (some c) = c.incoming

on_tick-Ends :
    (cfg : ProbeConfig) (i : Input) (s : Probe) (o : Option Conn)
    → s.conn ≡ o
    → Ends s.stats.oks s.outage_start i (arriving i o) (on_tick cfg i s o)
unfolding on_tick
on_tick-Ends cfg i s none e = on_dial-Ends cfg i s i.dialed e
on_tick-Ends cfg i s (some c) e = exchange-Ends cfg i s c []

-- How a tick ends. It succeeds: the success is counted, the connection stays with an end of the bytes
-- that arrived on it, and no outage is measured any more. Or it fails:
-- no success is counted, the connection is gone, and the outage lasts since the failure that began it. Or
-- the process panics, and that only if some end of the bytes that arrive on the connection of the tick
-- makes `readReply` panic.
pub tick_ends :
    (cfg : ProbeConfig) (i : Input) (s : Probe)
    → ((s' : Probe) × (logs : List Log) × (tick cfg i s ≡ some (s', logs))
        × (((s'.stats.oks ≡ s.stats.oks + 1)
              × ((c : Conn) × (s'.conn ≡ some c) × IsSuffix c.incoming (arriving i s.conn))
              × (s'.outage_start ≡ none))
            ⊎ ((s'.stats.oks ≡ s.stats.oks)
                × (s'.conn ≡ none)
                × (s'.outage_start ≡ some (or_else s.outage_start i.failed_at)))))
      ⊎ ((tick cfg i s ≡ none) × Panics (arriving i s.conn))
unfolding tick
tick_ends cfg i s = on_tick-Ends cfg i (record s { tick = s.tick + 1 }) s.conn refl
