-- ===== src/Tools/Tests.antt =====
-- A server that answers a scan, some ticks of the probe, and some rounds of the loader.
use redis_replication_contro.Base.{
  ◌+◌, ◌≡◌, ◌⊎◌, refl, true, false, none, some, List, [], ◌∷◌, ◌++◌, arith, take,
}
use redis_replication_contro.Base.Int.{pos, wrap64}
use redis_replication_contro.Base.Bytes.{Bytes, codes}
use redis_replication_contro.Tools.FailoverProbe.Client.{Conn}
use redis_replication_contro.Tools.FailoverProbe.Client.Crash.{Panics}
use redis_replication_contro.Tools.FailoverProbe.Scan.{scan_keys}
use redis_replication_contro.Tools.FailoverProbe.Scan.Ends.{Within, scan_keys_total}
use redis_replication_contro.Tools.FailoverProbe.Settings.{ProbeConfig, or_else}
use redis_replication_contro.Tools.FailoverProbe.Loop.{Probe, Log, Input, first_probe, tick, ticks}
use redis_replication_contro.Tools.FailoverProbe.Loop.Runs.{RunEnds, ticks-IsConsistent}
use redis_replication_contro.Tools.FailoverProbe.Loop.Outage.{arriving, tick_ends}
use redis_replication_contro.Redis.Resp
use redis_replication_contro.Redis.Resp.Suffix.{IsSuffix}
use redis_replication_contro.Tools.FailoverProbe
use redis_replication_contro.Tools.DataLoader.Client
use redis_replication_contro.Tools.DataLoader.Client.{Pipe}
use redis_replication_contro.Tools.DataLoader.Settings.{LoaderConfig}
use redis_replication_contro.Tools.DataLoader.Flush.{Loader, flushed, broken, flush}
use redis_replication_contro.Tools.DataLoader.Flush.InSync.{
  Answer, stored, rejected, respond, set_texts, flush_in_sync,
}
use redis_replication_contro.Tools.DataLoader.Loop
use redis_replication_contro.Tools.DataLoader.Loop.{gone, rounds, finish, load, add, is_due}
use redis_replication_contro.Tools.DataLoader.Loop.Flushes.{IsKept}
use redis_replication_contro.Tools.DataLoader.Loop.Kept.{pairs_of, load-IsKept}
use redis_replication_contro.Tools.DataLoader.Loop.Redial.{redial_panics}

abbrev line : Bytes → Conn
line incoming = record {
  takes_deadline = λ s. true;
  takes_write = λ s. true;
  sent = [];
  incoming = incoming;
}

-- One page with two keys, and the cursor 0.
abbrev page : Bytes
page =
    codes "*2"
    ++ 13 ∷ 10 ∷ codes "+0"
    ++ 13 ∷ 10 ∷ codes "*2"
    ++ 13 ∷ 10 ∷ codes "+ld:a"
    ++ 13 ∷ 10 ∷ codes "+ld:b"
    ++ 13 ∷ 10 ∷ []

scan_keys_total_example : Within 100 page (scan_keys (codes "ld") 100 (line page))
scan_keys_total_example = scan_keys_total (codes "ld") 100 (line page) (omega arith)

abbrev probe_config : ProbeConfig
probe_config = record {
  addr = codes "redis:6379";
  interval = pos 250000000;
  dial_timeout = pos 1000000000;
  cmd_timeout = pos 1000000000;
  probe_key = codes "failover-probe:counter";
  data_prefix = codes "ld";
  log_every = pos 20;
}

-- A connection that ends after its reply to INFO.
abbrev dialed : Input
dialed = record {
  dialed = some (line (codes "+run_id:7" ++ 13 ∷ 10 ∷ []));
  failed_at = 5;
  recovered_at = 9;
}

abbrev undialed : Input
undialed = record { dialed = none; failed_at = 3; recovered_at = 4 }

-- Two ticks: no connection, and one that ends after its reply to INFO.
ticks-IsConsistent_example :
    let is = undialed ∷ dialed ∷ [] in
    RunEnds is (ticks probe_config is (first_probe probe_config (λ i. i)))
ticks-IsConsistent_example = ticks-IsConsistent probe_config (λ i. i) (undialed ∷ dialed ∷ [])

tick_ends_example :
    let s = first_probe probe_config (λ i. i) in
    ((s' : Probe) × (logs : List Log) × (tick probe_config dialed s ≡ some (s', logs))
      × (((s'.stats.oks ≡ s.stats.oks + 1)
            × ((c : Conn) × (s'.conn ≡ some c) × IsSuffix c.incoming (arriving dialed s.conn))
            × (s'.outage_start ≡ none))
          ⊎ ((s'.stats.oks ≡ s.stats.oks)
              × (s'.conn ≡ none)
              × (s'.outage_start ≡ some (or_else s.outage_start dialed.failed_at)))))
    ⊎ ((tick probe_config dialed s ≡ none) × Panics (arriving dialed s.conn))
tick_ends_example = tick_ends probe_config dialed (first_probe probe_config (λ i. i))

abbrev pipe : Bytes → Pipe
pipe incoming = record {
  line = line incoming;
  takes_write_deadline = λ s. true;
  takes_command = λ s i. true;
  takes_flush = λ s. true;
  takes_read_deadline = λ s. true;
}

abbrev answers : List Answer
answers = stored ∷ rejected (codes "OOM") ∷ []

abbrev two_pairs : Loader
two_pairs = record {
  conn = some (pipe (respond answers ++ codes "+PONG"));
  batch = (codes "a", codes "1") ∷ (codes "b", codes "2") ∷ [];
  tally = record { written = 0; keys = 0; errs = 0 };
  idx = 2;
}

flush_in_sync_example :
    let p = pipe (respond answers ++ codes "+PONG") in
    flush two_pairs ≡ (
      record two_pairs {
        conn = some (record p {
          line = record p.line { sent = set_texts two_pairs.batch; incoming = codes "+PONG" };
        });
        tally = record { written = 42; keys = 1; errs = 1 };
        batch = [];
      },
      flushed,
    )
flush_in_sync_example =
    flush_in_sync two_pairs (pipe (respond answers ++ codes "+PONG")) answers (codes "+PONG") refl
      (omega arith)
      (record { write_deadline = refl; all = λ i. refl; flush = refl; read_deadline = refl }) refl
      refl (tt, (omega arith, tt))

abbrev loader_config : LoaderConfig
loader_config = record {
  addr = codes "redis:6379";
  dial_timeout = pos 5000000000;
  cmd_timeout = pos 5000000000;
  target_gb = pos 10;
  batch_size = pos 1;
  key_prefix = codes "ld";
}

abbrev generating : Loop.Input
generating = record { stop = false; generated = λ prefix i. (prefix, codes "1"); dialed = none }

load-IsKept_example :
    let is = generating ∷ [] in
    let s = (load loader_config (some (pipe [])) is).0 in
    IsKept (take s.idx (pairs_of loader_config is 0)) s
load-IsKept_example = load-IsKept loader_config (some (pipe [])) (generating ∷ [])

-- A connection that is closed by the server.
abbrev closed : Loader
closed = record {
  conn = some (pipe []);
  batch = [];
  tally = record { written = 0; keys = 0; errs = 0 };
  idx = 0;
}

closed_due : is_due loader_config (add loader_config generating closed) ≡ true
unfolding add is_due Loop.has_target wrap64
closed_due = refl

closed_breaks : (flush (add loader_config generating closed)).1 ≡ broken
unfolding add flush Client.read_reply FailoverProbe.Client.read_reply Resp.read_reply
closed_breaks = refl

redial_panics_example :
    (finish (rounds loader_config (generating ∷ generating ∷ []) closed)).1 ≡ gone
redial_panics_example =
    redial_panics loader_config generating generating [] closed refl closed_due closed_breaks refl
