-- ===== src/Tools/DataLoader/Flush/Accounts.antt =====
-- What a flush does to the counters and the batch, whatever the server answers.
use redis_replication_contro.Base.{
  not, ℕ, suc, ◌+◌, ◌*◌, ◌≤◌, ◌<◌, if◌then◌else◌, ◌≡◌, refl, Bool, true, false, Option, none, some,
  [], ◌∷◌, ◌++◌, arith, length,
}
use redis_replication_contro.Base.Result.{Result, ok, err}
use redis_replication_contro.Base.Bytes.{Bytes}
use redis_replication_contro.Redis.Resp.{
  Reply, nil, str, int, arr, eof, empty_line, panic, out_of_fuel, redis_error, bad_integer,
  bad_bulk_length, bad_array_length, unknown_type,
}
use redis_replication_contro.Tools.DataLoader.Client.{Pipe, read_reply}
use redis_replication_contro.Tools.DataLoader.Flush.{
  Batch, Tally, Loader, Flushed, flushed, broken, panicked, Drained, count_err, count_reply,
  on_reply, drain, takes_all, commands, after_drain, read_replies, flush_to, flush_on, flush,
}

-- The counters after `n` pairs were counted, or a part of them.
abbrev Counts : ℕ → Tally → Tally → Type 0
Counts n t t' =
    (t'.keys + t'.errs ≡ t.keys + t.errs + n)
    × (t.keys ≤ t'.keys)
    × (t.written + 40 * t'.keys ≤ t'.written + 40 * t.keys)

abbrev CountsSome : ℕ → Tally → Tally → Type 0
CountsSome n t t' = (k : ℕ) × ((k ≤ n) × Counts k t t')

-- How a flush of `n` pairs ends: with all of them counted, or with some.
abbrev Accounts : ℕ → Tally → Tally → Flushed → Type 0
Accounts n t t' flushed = Counts n t t'
Accounts n t t' broken = CountsSome n t t'
Accounts n t t' panicked = CountsSome n t t'

count_reply-Counts :
    (r : Reply) (pair : Bytes × Bytes) (t : Tally) → Counts 1 t (count_reply r pair t)
unfolding count_reply
count_reply-Counts (str s) pair t = ground arith
count_reply-Counts nil pair t = ground arith
count_reply-Counts (int n) pair t = ground arith
count_reply-Counts (arr rs) pair t = ground arith

Accounts-suc :
    (n : ℕ) (t t1 t2 : Tally) (f : Flushed)
    → Counts 1 t t1
    → Accounts n t1 t2 f
    → Accounts (suc n) t t2 f
Accounts-suc n t t1 t2 flushed h1 h2 = ground arith
Accounts-suc n t t1 t2 broken h1 (k, (le, h2)) = (suc k, ground arith)
Accounts-suc n t t1 t2 panicked h1 (k, (le, h2)) = (suc k, ground arith)

on_reply-Accounts :
    (next : Bytes → Tally → Drained) (n : ℕ) (pair : Bytes × Bytes) (t : Tally)
    (r : Result _ Reply × Bytes)
    → ((s : Bytes) (t1 : Tally) → Accounts n t1 (next s t1).0 (next s t1).2)
    → let d = on_reply next pair t r in Accounts (suc n) t d.0 d.2
unfolding on_reply
on_reply-Accounts next n pair t (ok r, s) h =
    Accounts-suc n t _ _ (next s (count_reply r pair t)).2 (count_reply-Counts r pair t)
      (h s (count_reply r pair t))
on_reply-Accounts next n pair t (err (redis_error msg), s) h =
    Accounts-suc n t (count_err t) _ (next s (count_err t)).2 (omega arith) (h s (count_err t))
on_reply-Accounts next n pair t (err panic, s) h = (0, omega arith)
on_reply-Accounts next n pair t (err eof, s) h = (1, omega arith)
on_reply-Accounts next n pair t (err empty_line, s) h = (1, omega arith)
on_reply-Accounts next n pair t (err out_of_fuel, s) h = (1, omega arith)
on_reply-Accounts next n pair t (err (bad_integer e), s) h = (1, omega arith)
on_reply-Accounts next n pair t (err (bad_bulk_length x), s) h = (1, omega arith)
on_reply-Accounts next n pair t (err (bad_array_length x), s) h = (1, omega arith)
on_reply-Accounts next n pair t (err (unknown_type c), s) h = (1, omega arith)

drain-Accounts :
    (batch : Batch) (s : Bytes) (t : Tally)
    → let d = drain batch s t in Accounts (length batch) t d.0 d.2
unfolding drain
drain-Accounts [] s t = omega arith
drain-Accounts (pair ∷ batch) s t =
    on_reply-Accounts (drain batch) (length batch) pair t (read_reply (suc (length s)) s)
      (drain-Accounts batch)

-- The batch and the counters after a flush.
abbrev pub Remains : Loader → Loader → Flushed → Type 0
Remains s s' flushed = (s'.batch ≡ []) × Counts (length s.batch) s.tally s'.tally
Remains s s' broken = (s'.batch ≡ s.batch) × CountsSome (length s.batch) s.tally s'.tally
Remains s s' panicked = (s'.batch ≡ s.batch) × CountsSome (length s.batch) s.tally s'.tally

pub record Leaves (s : Loader) (r : Loader × Flushed) : Type 0 where
  pub idx : r.0.idx ≡ s.idx
  pub remains : Remains s r.0 r.1

after_drain-Leaves :
    (s : Loader) (p : Pipe) (d : Drained)
    → Accounts (length s.batch) s.tally d.0 d.2
    → Leaves s (after_drain s p d)
unfolding after_drain
after_drain-Leaves s p (t, rest, flushed) h = record { idx = refl; remains = (refl, h) }
after_drain-Leaves s p (t, rest, broken) h = record { idx = refl; remains = (refl, h) }
after_drain-Leaves s p (t, rest, panicked) h = record { idx = refl; remains = (refl, h) }

CountsSome-refl : (n : ℕ) (t : Tally) → CountsSome n t t
CountsSome-refl n t = (0, omega arith)

if-Leaves :
    (s : Loader) (b : Bool) (x y : Loader × Flushed)
    → Leaves s x
    → Leaves s y
    → Leaves s (if b then x else y)
if-Leaves s true x y hx hy = hx
if-Leaves s false x y hx hy = hy

read_replies-Leaves : (s : Loader) (p : Pipe) → Leaves s (read_replies s p)
unfolding read_replies
read_replies-Leaves s p =
    if-Leaves s (p.takes_read_deadline p.line.sent) _ _
      (after_drain-Leaves s p (drain s.batch p.line.incoming s.tally)
        (drain-Accounts s.batch p.line.incoming s.tally))
      (record { idx = refl; remains = (refl, CountsSome-refl (length s.batch) s.tally) })

flush_to-Leaves : (s : Loader) (p : Pipe) → 0 < length s.batch → Leaves s (flush_to s p)
unfolding flush_to
flush_to-Leaves s p h =
    let refused : Leaves s (s, broken) = record {
      idx = refl;
      remains = (refl, CountsSome-refl (length s.batch) s.tally);
    } in
    let failed : Leaves s (record s { tally = count_err s.tally }, broken) = record {
      idx = refl;
      remains = (refl, (1, omega arith));
    } in
    let sent = p.line.sent in
    let p' = record p { line = record p.line { sent = sent ++ commands s.batch } } in
    if-Leaves s (not (p.takes_write_deadline sent)) _ _ refused (
      if-Leaves s (not (takes_all (p.takes_command sent) 0 s.batch)) _ _ failed
        (if-Leaves s (not (p.takes_flush sent)) _ _ failed (read_replies-Leaves s p')))

flush_on-Leaves :
    (s : Loader) (batch : Batch) (c : Option Pipe) → s.batch ≡ batch → Leaves s (flush_on s batch c)
unfolding flush_on
flush_on-Leaves s [] c e = record { idx = refl; remains = (e, ground arith) }
flush_on-Leaves s (pair ∷ batch) none e = record {
  idx = refl;
  remains = (refl, CountsSome-refl (length s.batch) s.tally);
}
flush_on-Leaves s (pair ∷ batch) (some p) e = flush_to-Leaves s p (ground arith)

-- Whatever the server and the connection do in a flush: after one that succeeds the batch is empty and
-- each of its pairs is counted once, as a key or as an error; after any other the batch is as before, and
-- at most one count was made for each pair. A key adds at least 40 bytes to what was written, and the
-- index of the generated pairs stays.
pub flush_accounts : (s : Loader) → Leaves s (flush s)
unfolding flush
flush_accounts s = flush_on-Leaves s s.batch s.conn refl
