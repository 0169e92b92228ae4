-- ===== src/Base/Bytes/Trim.antt =====
-- `trim_space` on texts of printable ASCII characters without a space.
use Prim.Native.Nat.{ℕ, ◌≤◌}
use mathlib.Core.Path.{◌≡◌, refl, ap, ◌∙◌}
use mathlib.Core.List.{[], ◌∷◌, ◌++◌, reverse, reverse-cons, reverse-append, reverse-reverse}
use native.Mathlib.Omega.{arith}
use mathlib.Core.Bool.{false}
use redis_replication_contro.Base.Tests.{◌==◌}
use redis_replication_contro.Base.Lists.{All, All-append}
use redis_replication_contro.Base.Bytes.{
  Bytes, space_width, space_width_rev, trim_runes, trim_space,
}

abbrev pub IsGraph : ℕ → Type 0
IsGraph c = (33 ≤ c) × (c ≤ 126)

space_width_graph : (a : ℕ) (s : Bytes) → IsGraph a → space_width (a ∷ s) ≡ 0
unfolding space_width
space_width_graph a [] h = ground arith
space_width_graph a (b ∷ []) h = ground arith
space_width_graph a (b ∷ c ∷ s) h = ground arith

-- No wide space ends in a printable ASCII character.
two_wide_end : (b a : ℕ) → IsGraph a → (space_width (b ∷ a ∷ []) == 2) ≡ false
unfolding space_width
two_wide_end b a h = ground arith

three_wide_end : (c b a : ℕ) → IsGraph a → (space_width (c ∷ b ∷ a ∷ []) == 3) ≡ false
unfolding space_width
three_wide_end c b a h = ground arith

space_width_rev_graph : (a : ℕ) (s : Bytes) → IsGraph a → space_width_rev (a ∷ s) ≡ 0
unfolding space_width_rev
space_width_rev_graph a [] h = ground arith
space_width_rev_graph a (b ∷ []) h = ground (arith, two_wide_end b a h)
space_width_rev_graph a (b ∷ c ∷ s) h = ground (arith, two_wide_end b a h, three_wide_end c b a h)

trim_runes_graph :
    (width : Bytes → ℕ) (s : Bytes)
    → ((a : ℕ) (t : Bytes) → IsGraph a → width (a ∷ t) ≡ 0)
    → All IsGraph s
    → trim_runes width 0 s ≡ s
unfolding trim_runes
trim_runes_graph width [] h g = refl
trim_runes_graph width (a ∷ s) h (ga, gs) = rw (h a s ga, trim_runes)

trim_runes_cr : (r : Bytes) → trim_runes space_width_rev 0 (13 ∷ r) ≡ trim_runes space_width_rev 0 r
unfolding trim_runes space_width_rev space_width
trim_runes_cr [] = refl
trim_runes_cr (b ∷ []) = refl
trim_runes_cr (b ∷ c ∷ r) = refl

All-reverse : (s : Bytes) → All IsGraph s → All IsGraph (reverse s)
All-reverse [] g = tt
All-reverse (a ∷ s) (ga, gs) =
    rw reverse-cons (All-append IsGraph (reverse s) (a ∷ []) (All-reverse s gs) (ga, tt))

trim_end : (s : Bytes) → All IsGraph s → reverse (trim_runes space_width_rev 0 (reverse s)) ≡ s
trim_end s g =
    ap reverse
      (trim_runes_graph space_width_rev (reverse s) space_width_rev_graph (All-reverse s g))
    ∙ reverse-reverse s

-- A printable text without a space is not changed.
pub trim_space_graph : (s : Bytes) → All IsGraph s → trim_space s ≡ s
unfolding trim_space
trim_space_graph s g = rw (trim_runes_graph space_width s space_width_graph g) (trim_end s g)

-- Of such a text with a CR behind it the CR goes.
pub trim_space_cr :
    (a : ℕ) (s : Bytes) → All IsGraph (a ∷ s) → trim_space (a ∷ s ++ 13 ∷ []) ≡ a ∷ s
unfolding trim_space trim_runes
trim_space_cr a s (ga, gs) =
    rw (space_width_graph a (s ++ 13 ∷ []) ga, trim_runes, reverse-append (a ∷ s) (13 ∷ []))
      (ap reverse (trim_runes_cr (reverse (a ∷ s))) ∙ trim_end (a ∷ s) (ga, gs))
