-- ===== src/Base/Bytes/Split.antt =====
-- `split` and `cut` on texts built from parts.
use Prim.Native.Nat.{ℕ}
use mathlib.Core.Path.{◌≡◌}
use mathlib.Core.Logic.{◌≢◌}
use mathlib.Core.Option.{some}
use mathlib.Core.List.{[], ◌∷◌, ◌++◌, append_assoc, append-nil}
use native.Mathlib.Omega.{arith}
use redis_replication_contro.Base.Lists.{All}
use redis_replication_contro.Base.Bytes.{Bytes, split_from, split, cut}

abbrev pub Lacks : ℕ → Bytes → Type 0
Lacks b = All (λ c. c ≢ b)

split_from-append :
    (sep : ℕ) (cur part rest : Bytes)
    → Lacks sep part
    → split_from sep cur (part ++ sep ∷ rest) ≡ (cur ++ part) ∷ split_from sep [] rest
unfolding split_from
split_from-append sep cur [] rest h = ground (arith, append-nil cur)
split_from-append sep cur (c ∷ part) rest (h, hs) =
    ground
      (arith, split_from-append sep (cur ++ c ∷ []) part rest hs, append_assoc cur (c ∷ []) part)

-- The part before the first separator comes first.
pub split-append :
    (sep : ℕ) (part rest : Bytes)
    → Lacks sep part
    → split (part ++ sep ∷ rest) sep ≡ part ∷ split rest sep
unfolding split
split-append sep part rest h = split_from-append sep [] part rest h

pub cut-append :
    (sep : ℕ) (key val : Bytes) → Lacks sep key → cut (key ++ sep ∷ val) sep ≡ some (key, val)
unfolding cut
cut-append sep [] val h = ground arith
cut-append sep (c ∷ key) val (h, hs) = ground (arith, cut-append sep key val hs)
