-- ===== src/Tools/DataLoader/Loop/Kept.antt =====
-- What becomes of the pairs that are generated, whatever the server and the connections do.
use mathlib.Core.Path.{subst}
use redis_replication_contro.Base.{
  ℕ, suc, Option, none, some, ◌+◌, ◌≡◌, ◌⊎◌, inl, inr, refl, sym, ap, ◌∙◌, Bool, true, false, List,
  [], ◌∷◌, ◌++◌, if◌then◌else◌, append_assoc, append-nil, arith, take, Bool-cases,
}
use redis_replication_contro.Base.Int.{pos, ltb_ℤ}
use redis_replication_contro.Base.Bytes.{Bytes}
use redis_replication_contro.Tools.DataLoader.Client.{Pipe}
use redis_replication_contro.Tools.DataLoader.Settings.{LoaderConfig}
use redis_replication_contro.Tools.DataLoader.Flush.{
  Batch, Loader, Flushed, flushed, broken, panicked, flush,
}
use redis_replication_contro.Tools.DataLoader.Loop.{
  Input, Phase, looping, leaving, gone, is_due, greet, after_flush, add, round, after_round, rounds,
  final_flush, finish, first_loader, batch_limit, load_greeted, load,
}
use redis_replication_contro.Tools.DataLoader.Loop.Flushes.{
  IsKept, Stands, flush-Stands, after_flush-Stands, add-Stands,
}

-- The pairs that the rounds generate, the first of them with the index `n`.
abbrev pub pairs_of : LoaderConfig → List Input → ℕ → Batch
pairs_of cfg [] n = []
pairs_of cfg (i ∷ is) n = i.generated cfg.key_prefix n ∷ pairs_of cfg is (n + 1)

-- A round is left at once, or has generated its pair.
abbrev Rounded : LoaderConfig → Input → Batch → Loader → Loader × Phase → Type 0
Rounded cfg i made s r =
    (r ≡ (s, leaving)) ⊎ Stands (made ++ i.generated cfg.key_prefix s.idx ∷ []) (s.idx + 1) r.0

if-Stands :
    (b : Bool) (made : Batch) (n : ℕ) (x y : Loader × Phase)
    → Stands made n x.0
    → Stands made n y.0
    → Stands made n (if b then x else y).0
if-Stands true made n x y hx hy = hx
if-Stands false made n x y hx hy = hy

round-Rounded :
    (cfg : LoaderConfig) (i : Input) (made : Batch) (s : Loader)
    → IsKept made s
    → Rounded cfg i made s (round cfg i s)
unfolding round
round-Rounded cfg i made s h =
    let made' = made ++ i.generated cfg.key_prefix s.idx ∷ [] in
    let s1 = add cfg i s in
    let added = add-Stands cfg i made s h in
    elim (Bool-cases i.stop) [
      | inl e ↦ rw e (inl refl)
      | inr e ↦ rw e (
          inr (
            if-Stands (is_due cfg s1) made' (s.idx + 1) (after_flush cfg i (flush s1)) (s1, looping)
              (after_flush-Stands cfg i made' (s.idx + 1) (flush s1)
                (flush-Stands made' (s.idx + 1) s1 added))
              added))
    ]

-- After `made`, so many rounds have generated their pairs.
abbrev Reaches : LoaderConfig → List Input → Batch → Loader → Loader × Phase → Type 0
Reaches cfg is made s r = (n : ℕ) × Stands (made ++ take n (pairs_of cfg is s.idx)) (s.idx + n) r.0

stays-Reaches :
    (cfg : LoaderConfig) (is : List Input) (made : Batch) (s : Loader) (r : Loader × Phase)
    → r.0 ≡ s
    → IsKept made s
    → Reaches cfg is made s r
stays-Reaches cfg is made s r e h = (
  0,
  subst (λ l. Stands (made ++ []) (s.idx + 0) l) (sym e)
      (omega arith, subst (λ l. IsKept l s) (sym (append-nil made)) h),
)

module _ (cfg : LoaderConfig) (i : Input) (is : List Input) (made : Batch) (s : Loader) where
  abbrev pair : Bytes × Bytes
  pair = i.generated cfg.key_prefix s.idx

  after_round-Reaches :
      (next : Loader → Loader × Phase) (r : Loader × Phase)
      → ((s1 : Loader)
          → IsKept (made ++ pair ∷ []) s1
          → Reaches cfg is (made ++ pair ∷ []) s1 (next s1))
      → Stands (made ++ pair ∷ []) (s.idx + 1) r.0
      → Reaches cfg (i ∷ is) made s (after_round next r)
  after_round-Reaches next (s1, looping) k (e, h) =
      let (n, (at, kept)) = k s1 h in
      (
        suc n,
        (
          omega (arith, at, e),
          subst (λ l. IsKept l (next s1).0)
              (append_assoc made (pair ∷ []) (take n (pairs_of cfg is s1.idx))
                ∙ ap (λ j. made ++ pair ∷ take n (pairs_of cfg is j)) e)
              kept,
        ),
      )
  after_round-Reaches next (s1, leaving) k (e, h) = (1, (e, h))
  after_round-Reaches next (s1, gone) k (e, h) = (1, (e, h))

rounds-Reaches :
    (cfg : LoaderConfig) (is : List Input) (made : Batch) (s : Loader)
    → IsKept made s
    → Reaches cfg is made s (rounds cfg is s)
unfolding rounds
rounds-Reaches cfg [] made s h = stays-Reaches cfg [] made s (s, looping) refl h
rounds-Reaches cfg (i ∷ is) made s h = elim (round-Rounded cfg i made s h) [
  | inl e ↦
      stays-Reaches cfg (i ∷ is) made s (after_round (rounds cfg is) (round cfg i s))
        (ap (λ r. (after_round (rounds cfg is) r).0) e) h
  | inr h1 ↦
      after_round-Reaches cfg i is made s (rounds cfg is) (round cfg i s)
        (λ s1 k. rounds-Reaches cfg is _ s1 k) h1
]

final_flush-Stands :
    (made : Batch) (n : ℕ) (r : Loader × Flushed)
    → Stands made n r.0
    → Stands made n (final_flush r).0
unfolding final_flush
final_flush-Stands made n (s, flushed) h = h
final_flush-Stands made n (s, broken) h = h
final_flush-Stands made n (s, panicked) h = h

finish-Stands :
    (made : Batch) (n : ℕ) (r : Loader × Phase) → Stands made n r.0 → Stands made n (finish r).0
unfolding finish
finish-Stands made n (s, looping) h = h
finish-Stands made n (s, leaving) h = final_flush-Stands made n (flush s) (flush-Stands made n s h)
finish-Stands made n (s, gone) h = h

-- The pairs generated so far, by the index.
abbrev Generated : LoaderConfig → List Input → Loader → Type 0
Generated cfg is s = IsKept (take s.idx (pairs_of cfg is 0)) s

first-Generated :
    (cfg : LoaderConfig) (is : List Input) (c : Option Pipe) → Generated cfg is (first_loader c)
first-Generated cfg is c = record { settled = []; order = refl; counted = omega arith }

finished-Generated :
    (cfg : LoaderConfig) (is : List Input) (c : Option Pipe)
    → Generated cfg is (finish (rounds cfg is (first_loader c))).0
finished-Generated cfg is c =
    let first : IsKept [] (first_loader c) = record {
      settled = [];
      order = refl;
      counted = omega arith;
    } in
    let (n, h) = rounds-Reaches cfg is [] (first_loader c) first in
    let r = rounds cfg is (first_loader c) in
    let (e, kept) = finish-Stands (take n (pairs_of cfg is 0)) (0 + n) r h in
    let same : n ≡ (finish r).0.idx = omega (arith, e) in
    subst (λ k. IsKept (take k (pairs_of cfg is 0)) (finish r).0) same kept

load_greeted-Generated :
    (cfg : LoaderConfig) (is : List Input) (o : Option Pipe)
    → Generated cfg is (load_greeted cfg is o).0
unfolding load_greeted
load_greeted-Generated cfg is none = first-Generated cfg is none
load_greeted-Generated cfg is (some p) = elim (Bool-cases (ltb_ℤ (batch_limit cfg) (pos 0))) [
  | inl e ↦ rw e (first-Generated cfg is (some p))
  | inr e ↦ rw e (finished-Generated cfg is (some p))
]

-- At any time of a run, and at its end, the pairs that were generated so far, in their order, are a first
-- part that was settled and behind it exactly the batch: none is lost or changed. The settled pairs are
-- not more than the keys and errors counted together. This holds whatever the server answers and
-- whichever connections break.
pub load-IsKept :
    (cfg : LoaderConfig) (dialed : Option Pipe) (is : List Input)
    → let s = (load cfg dialed is).0 in IsKept (take s.idx (pairs_of cfg is 0)) s
unfolding load
load-IsKept cfg none is = first-Generated cfg is none
load-IsKept cfg (some p) is = load_greeted-Generated cfg is (greet p)
