-- ===== src/Tools/FailoverProbe/Loop/Runs.antt =====
-- The run of the probe over its ticks.
use mathlib.Core.Path.{subst}
use mathlib.Core.Option.{some-injective}
use redis_replication_contro.Base.{
  In, sym, ap, ◌∙◌, ◌⊎◌, inl, inr, ℕ, ◌≡◌, refl, Option, none, some, List, [], ◌∷◌,
}
use redis_replication_contro.Tools.FailoverProbe.Client.{Conn}
use redis_replication_contro.Tools.FailoverProbe.Settings.{ProbeConfig}
use redis_replication_contro.Tools.FailoverProbe.Client.Crash.{Panics, Panics-suffix}
use redis_replication_contro.Tools.FailoverProbe.Loop.Outage.{coming, arriving, tick_ends}
use redis_replication_contro.Redis.Resp.Suffix.{IsSuffix, IsSuffix-refl, IsSuffix-trans}
use redis_replication_contro.Tools.FailoverProbe.Loop.{
  Probe, Input, Log, first_probe, tick, after_tick, ticks,
}
use redis_replication_contro.Tools.FailoverProbe.Loop.Counts.{
  IsConsistent, Ticks, tick-Ticks, first_probe-IsConsistent,
}

-- The bytes to come on the probe's connection are an end of those of one of the dialled connections.
abbrev IsSourced : List Input → Probe → Type 0
IsSourced dials s =
    (c : Conn) → s.conn ≡ some c → (j : Input) × In j dials × IsSuffix c.incoming (coming j.dialed)

arriving-sourced :
    (dials : List Input) (i : Input) (s : Probe) (o : Option Conn)
    → s.conn ≡ o
    → In i dials
    → IsSourced dials s
    → (j : Input) × In j dials × IsSuffix (arriving i o) (coming j.dialed)
arriving-sourced dials i s none e m k = (i, m, IsSuffix-refl (coming i.dialed))
arriving-sourced dials i s (some c) e m k = k c e

-- The end of a run: a consistent state, or a panic at the bytes of some dialled connection.
abbrev pub RunEnds : List Input → Option Probe → Type 0
RunEnds dials r =
    ((s : Probe) × (r ≡ some s) × IsConsistent s)
    ⊎ ((r ≡ none) × ((j : Input) × In j dials × Panics (coming j.dialed)))

-- The state behind a tick that has not panicked.
tick-state :
    (cfg : ProbeConfig) (i : Input) (s s' : Probe) (logs : List Log)
    → tick cfg i s ≡ some (s', logs)
    → IsConsistent s
    → IsConsistent s'
tick-state cfg i s s' logs e h = subst Ticks e (tick-Ticks cfg i s h)

RunEnds-eq :
    (dials : List Input) {r r' : Option Probe} → r ≡ r' → RunEnds dials r' → RunEnds dials r
RunEnds-eq dials e h = subst (RunEnds dials) (sym e) h

ticks-RunEnds :
    (cfg : ProbeConfig) (dials is : List Input) (s : Probe)
    → ((i : Input) → In i is → In i dials)
    → IsSourced dials s
    → IsConsistent s
    → RunEnds dials (ticks cfg is s)
unfolding ticks
ticks-RunEnds cfg dials [] s sub k h = inl (s, refl, h)
ticks-RunEnds cfg dials (i ∷ is) s sub k h =
    let (j, m, suffix) = arriving-sourced dials i s s.conn refl (sub i (inl refl)) k in
    let next = after_tick (ticks cfg is) in
    elim (tick_ends cfg i s) [
      | inl (s', logs, e, inl (o, (c, q, l), w)) ↦ RunEnds-eq dials (ap next e) (
          ticks-RunEnds cfg dials is s' (λ x n. sub x (inr n))
            (λ c' q'. (
              j,
              m,
              subst (λ x. IsSuffix x.incoming (coming j.dialed)) (some-injective c c' (sym q ∙ q'))
                  (IsSuffix-trans c.incoming (arriving i s.conn) (coming j.dialed) l suffix),
            ))
            (tick-state cfg i s s' logs e h))
      | inl (s', logs, e, inr (o, closed, w)) ↦ RunEnds-eq dials (ap next e) (
          ticks-RunEnds cfg dials is s' (λ x n. sub x (inr n)) (λ c' q'. absurd (cc (closed, q')))
            (tick-state cfg i s s' logs e h))
      | inr (e, p) ↦
          inr (ap next e, (j, m, Panics-suffix (arriving i s.conn) (coming j.dialed) suffix p))
    ]

-- After any ticks, whatever the server and the network do in them, the counters, the connection and the
-- outage of the probe agree (`IsConsistent`), unless the process has panicked; and it panics only if some
-- end of the bytes that arrive on one of the dialled connections makes `readReply` panic.
pub ticks-IsConsistent :
    (cfg : ProbeConfig) (draws : ℕ → ℕ) (is : List Input)
    → RunEnds is (ticks cfg is (first_probe cfg draws))
ticks-IsConsistent cfg draws is =
    ticks-RunEnds cfg is is (first_probe cfg draws) (λ i m. m) (λ c e. absurd (cc e))
      (first_probe-IsConsistent cfg draws)
