-- ===== src/Tools/DataLoader/Loop/Flushes.antt =====
-- The pairs of the loader over a flush and a new connection.
use redis_replication_contro.Base.{
  ℕ, Option, none, some, ◌+◌, ◌≤◌, ◌≡◌, refl, sym, ap, ◌∙◌, [], ◌∷◌, ◌++◌, append_assoc, append-nil,
  arith, length, length-append,
}
use redis_replication_contro.Tools.DataLoader.Client.{Pipe}
use redis_replication_contro.Tools.DataLoader.Settings.{LoaderConfig}
use redis_replication_contro.Tools.DataLoader.Flush.{
  Batch, Loader, Flushed, flushed, broken, panicked, flush,
}
use redis_replication_contro.Tools.DataLoader.Flush.Accounts.{Remains, Leaves, flush_accounts}
use redis_replication_contro.Tools.DataLoader.Loop.{Input, greet, resume, redial, after_flush, add}

-- The pairs `made` are some that were settled, of which there are not more than counted keys and errors,
-- and behind them those of the batch.
pub record IsKept (made : Batch) (s : Loader) : Type 0 where
  pub settled : Batch
  pub order : made ≡ settled ++ s.batch
  pub counted : length settled ≤ s.tally.keys + s.tally.errs

Remains-IsKept :
    (made : Batch) (s s' : Loader) (f : Flushed) → Remains s s' f → IsKept made s → IsKept made s'
Remains-IsKept made s s' flushed (empty, counts) h = record {
  settled = h.settled ++ s.batch;
  order =
      h.order
      ∙ sym (append-nil (h.settled ++ s.batch))
      ∙ ap (λ b. (h.settled ++ s.batch) ++ b) (sym empty);
  counted = omega (arith, counts.0, h.counted, length-append h.settled s.batch);
}
Remains-IsKept made s s' broken (same, (k, (le, counts))) h = record {
  settled = h.settled;
  order = h.order ∙ ap (λ b. h.settled ++ b) (sym same);
  counted = omega (arith, counts.0, h.counted);
}
Remains-IsKept made s s' panicked (same, (k, (le, counts))) h = record {
  settled = h.settled;
  order = h.order ∙ ap (λ b. h.settled ++ b) (sym same);
  counted = omega (arith, counts.0, h.counted);
}

-- Both the pairs and the index.
abbrev pub Stands : Batch → ℕ → Loader → Type 0
Stands made n s = (s.idx ≡ n) × IsKept made s

Leaves-Stands :
    (made : Batch) (n : ℕ) (s : Loader) (r : Loader × Flushed)
    → Leaves s r
    → Stands made n s
    → Stands made n r.0
Leaves-Stands made n s (s', f) l (e, h) = (l.idx ∙ e, Remains-IsKept made s s' f l.remains h)

pub flush-Stands : (made : Batch) (n : ℕ) (s : Loader) → Stands made n s → Stands made n (flush s).0
flush-Stands made n s h = Leaves-Stands made n s (flush s) (flush_accounts s) h

-- A new connection leaves the rest as it is.
conn-Stands :
    (made : Batch) (n : ℕ) (s : Loader) (c : Option Pipe)
    → Stands made n s
    → Stands made n (record s { conn = c })
conn-Stands made n s c (e, h) =
    (e, record { settled = h.settled; order = h.order; counted = h.counted })

resume-Stands :
    (made : Batch) (n : ℕ) (s : Loader) (o : Option Pipe)
    → Stands made n s
    → Stands made n (resume s o).0
unfolding resume
resume-Stands made n s none h = conn-Stands made n s none h
resume-Stands made n s (some p) h = conn-Stands made n s (some p) h

redial-Stands :
    (made : Batch) (n : ℕ) (s : Loader) (o : Option Pipe)
    → Stands made n s
    → Stands made n (redial s o).0
unfolding redial
redial-Stands made n s none h = conn-Stands made n s none h
redial-Stands made n s (some p) h = resume-Stands made n s (greet p) h

pub after_flush-Stands :
    (cfg : LoaderConfig) (i : Input) (made : Batch) (n : ℕ) (r : Loader × Flushed)
    → Stands made n r.0
    → Stands made n (after_flush cfg i r).0
unfolding after_flush
after_flush-Stands cfg i made n (s, flushed) h = h
after_flush-Stands cfg i made n (s, broken) h = redial-Stands made n s i.dialed h
after_flush-Stands cfg i made n (s, panicked) h = h

pub add-Stands :
    (cfg : LoaderConfig) (i : Input) (made : Batch) (s : Loader)
    → IsKept made s
    → Stands (made ++ i.generated cfg.key_prefix s.idx ∷ []) (s.idx + 1) (add cfg i s)
unfolding add
add-Stands cfg i made s h =
    let pair = i.generated cfg.key_prefix s.idx in
    (
      refl,
      record {
        settled = h.settled;
        order = ap (λ l. l ++ pair ∷ []) h.order ∙ append_assoc h.settled s.batch (pair ∷ []);
        counted = h.counted;
      },
    )
