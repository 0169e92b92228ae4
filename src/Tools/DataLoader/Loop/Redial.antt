-- ===== src/Tools/DataLoader/Loop/Redial.antt =====
-- What comes after a broken flush whose reconnection fails.
use redis_replication_contro.Base.{
  ◌+◌, ◌≤◌, ◌<◌, ◌≡◌, refl, ap, ◌⊎◌, ◌∙◌, true, false, none, List, [], ◌∷◌, arith, length,
  length-append, Bool-cases, inl, inr,
}
use redis_replication_contro.Tools.DataLoader.Settings.{LoaderConfig}
use redis_replication_contro.Tools.DataLoader.Flush.{
  Batch, Tally, Loader, Flushed, flushed, broken, panicked, flush_on, flush,
}
use redis_replication_contro.Tools.DataLoader.Flush.Accounts.{Remains, flush_accounts}
use redis_replication_contro.Tools.DataLoader.Loop.{
  redial, Input, Phase, looping, leaving, gone, is_due, has_target, after_flush, add, round,
  after_round, rounds, final_flush, finish,
}

flush_on_nil :
    (s : Loader) (batch : Batch) → 0 < length batch → flush_on s batch none ≡ (s, panicked)
unfolding flush_on
flush_on_nil s [] h = ground arith
flush_on_nil s (pair ∷ batch) h = refl

flush_nil : (s : Loader) → s.conn ≡ none → 0 < length s.batch → flush s ≡ (s, panicked)
unfolding flush
flush_nil s e h = ap (flush_on s s.batch) e ∙ flush_on_nil s s.batch h

has_target_later :
    (cfg : LoaderConfig) (t t' : Tally)
    → t.written ≤ t'.written
    → has_target cfg t ≡ true
    → has_target cfg t' ≡ true
unfolding has_target
has_target_later cfg t t' h e = ground arith

is_due_later :
    (cfg : LoaderConfig) (s s' : Loader)
    → length s.batch ≤ length s'.batch
    → s.tally.written ≤ s'.tally.written
    → is_due cfg s ≡ true
    → is_due cfg s' ≡ true
unfolding is_due
is_due_later cfg s s' batch written e =
    ground (arith, has_target_later cfg s.tally s'.tally written)

-- The loader after a broken flush, with the nil connection of a failed `dial`.
record IsCut (cfg : LoaderConfig) (s : Loader) : Type 0 where
  conn : s.conn ≡ none
  batch : 0 < length s.batch
  due : is_due cfg s ≡ true

Remains-IsCut :
    (cfg : LoaderConfig) (s s' : Loader) (f : Flushed)
    → f ≡ broken
    → Remains s s' f
    → 0 < length s.batch
    → is_due cfg s ≡ true
    → IsCut cfg (record s' { conn = none })
Remains-IsCut cfg s s' flushed e h some_pairs due = cc
Remains-IsCut cfg s s' panicked e h some_pairs due = cc
Remains-IsCut cfg s s' broken e (same, (k, h)) some_pairs due = record {
  conn = refl;
  batch = ground arith;
  due = is_due_later cfg s (record s' { conn = none }) (ground arith) (omega arith) due;
}

add-batch :
    (cfg : LoaderConfig) (i : Input) (s : Loader) → length (add cfg i s).batch ≡ length s.batch + 1
unfolding add
add-batch cfg i s = ground (arith, length-append s.batch (i.generated cfg.key_prefix s.idx ∷ []))

add-conn : (cfg : LoaderConfig) (i : Input) (s : Loader) → (add cfg i s).conn ≡ s.conn
unfolding add
add-conn cfg i s = refl

add-written :
    (cfg : LoaderConfig) (i : Input) (s : Loader) → (add cfg i s).tally.written ≡ s.tally.written
unfolding add
add-written cfg i s = refl

-- Its last flush panics.
finish-IsCut : (cfg : LoaderConfig) (s : Loader) → IsCut cfg s → (finish (s, leaving)).1 ≡ gone
unfolding finish final_flush
finish-IsCut cfg s h = ap (λ r. (final_flush r).1) (flush_nil s h.conn h.batch)

round_stop :
    (cfg : LoaderConfig) (i : Input) (s : Loader) → i.stop ≡ true → round cfg i s ≡ (s, leaving)
unfolding round
round_stop cfg i s e = rw e

round_due :
    (cfg : LoaderConfig) (i : Input) (s : Loader)
    → i.stop ≡ false
    → is_due cfg (add cfg i s) ≡ true
    → round cfg i s ≡ after_flush cfg i (flush (add cfg i s))
unfolding round
round_due cfg i s e due = simp (e, due)

rounds_step :
    (cfg : LoaderConfig) (i : Input) (is : List Input) (s : Loader) (r : Loader × Phase)
    → round cfg i s ≡ r
    → rounds cfg (i ∷ is) s ≡ after_round (rounds cfg is) r
unfolding rounds
rounds_step cfg i is s r e = ap (after_round (rounds cfg is)) e

-- Its next round panics, or leaves the loop with the loader as it is.
round-IsCut :
    (cfg : LoaderConfig) (j : Input) (s : Loader)
    → IsCut cfg s
    → (round cfg j s ≡ (s, leaving)) ⊎ (round cfg j s ≡ (add cfg j s, gone))
unfolding after_flush
round-IsCut cfg j s h = elim (Bool-cases j.stop) [
  | inl e ↦ inl (round_stop cfg j s e)
  | inr e ↦
      let longer = add-batch cfg j s in
      let due =
        is_due_later cfg s (add cfg j s) (omega arith) (ground (arith, add-written cfg j s))
          h.due in
      inr (
        round_due cfg j s e due
        ∙ ap (after_flush cfg j)
            (flush_nil (add cfg j s) (add-conn cfg j s ∙ h.conn) (omega arith)))
]

rounds-IsCut :
    (cfg : LoaderConfig) (j : Input) (is : List Input) (s : Loader)
    → IsCut cfg s
    → (finish (rounds cfg (j ∷ is) s)).1 ≡ gone
unfolding finish
rounds-IsCut cfg j is s h = elim (round-IsCut cfg j s h) [
  | inl e ↦ ap (λ r. (finish r).1) (rounds_step cfg j is s _ e) ∙ finish-IsCut cfg s h
  | inr e ↦ ap (λ r. (finish r).1) (rounds_step cfg j is s _ e)
]

after_flush_broken :
    (cfg : LoaderConfig) (i : Input) (r : Loader × Flushed)
    → r.1 ≡ broken
    → i.dialed ≡ none
    → after_flush cfg i r ≡ (record r.0 { conn = none }, looping)
unfolding after_flush redial
after_flush_broken cfg i (s, flushed) e closed = cc
after_flush_broken cfg i (s, panicked) e closed = cc
after_flush_broken cfg i (s, broken) e closed = rw closed

-- After a round whose flush broke and whose `dial` failed, the program is gone in the next round, whether
-- that flushes again or takes a signal: it does not retry.
pub redial_panics :
    (cfg : LoaderConfig) (i j : Input) (is : List Input) (s : Loader)
    → i.stop ≡ false
    → is_due cfg (add cfg i s) ≡ true
    → (flush (add cfg i s)).1 ≡ broken
    → i.dialed ≡ none
    → (finish (rounds cfg (i ∷ j ∷ is) s)).1 ≡ gone
redial_panics cfg i j is s go due broke closed =
    let s1 = add cfg i s in
    let left = flush_accounts s1 in
    let cut =
      Remains-IsCut cfg s1 (flush s1).0 (flush s1).1 broke left.remains
        (ground (arith, add-batch cfg i s)) due in
    let step = round_due cfg i s go due ∙ after_flush_broken cfg i (flush s1) broke closed in
    ap (λ r. (finish r).1) (rounds_step cfg i (j ∷ is) s _ step) ∙ rounds-IsCut cfg j is _ cut
