-- ===== src/Base/Bytes.antt =====
-- Go strings as lists of bytes: equality, order, white space (`strings.TrimSpace`), `Split`, `Cut`,
-- `HasPrefix`, `LastIndex` and `ToLower` on ASCII.
pub mod Laws
mod Tests
pub mod Trim
pub mod Split
use Prim.Native.Char.{code}
use mathlib.Core.List.{reverse}
use redis_replication_contro.Base.Tests.{ltb, leb, ◌==◌, if◌then◌else◌}
use redis_replication_contro.Base.Lists.{length}
use Prim.Native.Nat.{ℕ, zero, suc, ◌+◌}
use Prim.Native.String.{String}
use mathlib.Core.Bool.{Bool, true, false, ◌&&◌, ◌||◌}
use mathlib.Core.Option.{Option, none, some}
use mathlib.Core.List.{List, [], ◌∷◌, ◌++◌}

abbrev pub Bytes : Type 0
Bytes = List ℕ

-- The bytes of an ASCII literal.
abbrev pub codes : String → Bytes
codes String.[] = []
codes (String.◌∷◌ c s) = code c ∷ codes s

unfoldable pub bytes_eq : Bytes → Bytes → Bool
bytes_eq [] [] = true
bytes_eq [] (b ∷ t) = false
bytes_eq (a ∷ s) [] = false
bytes_eq (a ∷ s) (b ∷ t) = a == b && bytes_eq s t

-- Go's `<` on strings: lexicographic on bytes.
unfoldable pub bytes_lt : Bytes → Bytes → Bool
bytes_lt s [] = false
bytes_lt [] (b ∷ t) = true
bytes_lt (a ∷ s) (b ∷ t) = if a == b then bytes_lt s t else ltb a b

abbrev pub is_empty : Bytes → Bool
is_empty [] = true
is_empty (a ∷ s) = false

-- The number of bytes of the white-space rune that `s` begins with, 0 if it begins with none: the
-- runes of `unicode.IsSpace` in UTF-8.
space_width : Bytes → ℕ
space_width [] = 0
space_width (a ∷ []) = if (leb 9 a && leb a 13) || a == 32 then 1 else 0
space_width (a ∷ b ∷ []) =
    if (leb 9 a && leb a 13) || a == 32
    then 1
    else if a == 0xc2 && (b == 0x85 || b == 0xa0)
    then 2
    else 0
space_width (a ∷ b ∷ c ∷ s) =
    if (leb 9 a && leb a 13) || a == 32
    then 1
    else if a == 0xc2 && (b == 0x85 || b == 0xa0)
    then 2
    else if (a == 0xe1 && b == 0x9a && c == 0x80)
        || (a == 0xe2
            && ((b == 0x80 && ((leb 0x80 c && leb c 0x8a) || c == 0xa8 || c == 0xa9 || c == 0xaf))
                || (b == 0x81 && c == 0x9f)))
        || (a == 0xe3 && b == 0x80 && c == 0x80)
    then 3
    else 0

-- The same for the rune that ends a text, whose bytes are given from the last to the first.
space_width_rev : Bytes → ℕ
unfolding space_width
space_width_rev [] = 0
space_width_rev (a ∷ []) = space_width (a ∷ [])
space_width_rev (a ∷ b ∷ []) =
    if space_width (a ∷ []) == 1 then 1 else if space_width (b ∷ a ∷ []) == 2 then 2 else 0
space_width_rev (a ∷ b ∷ c ∷ s) =
    if space_width (a ∷ []) == 1
    then 1
    else if space_width (b ∷ a ∷ []) == 2
    then 2
    else if space_width (c ∷ b ∷ a ∷ []) == 3
    then 3
    else 0

-- Drops runes while `width` is positive; the first argument counts bytes left of the current rune.
trim_runes : (Bytes → ℕ) → ℕ → Bytes → Bytes
trim_runes width skip [] = []
trim_runes width (suc n) (a ∷ s) = trim_runes width n s
trim_runes width zero (a ∷ s) = elim (width (a ∷ s)) [ zero ↦ a ∷ s | suc n ↦ trim_runes width n s ]

-- strings.TrimSpace
unfoldable pub trim_space : Bytes → Bytes
unfolding trim_runes space_width space_width_rev
trim_space s = reverse (trim_runes space_width_rev 0 (reverse (trim_runes space_width 0 s)))

-- strings.Split(s, sep) for a separator of one byte: always at least one part.
split_from : ℕ → Bytes → Bytes → List Bytes
split_from sep cur [] = cur ∷ []
split_from sep cur (c ∷ s) = elim (c == sep) [
  | true ↦ cur ∷ split_from sep [] s
  | false ↦ split_from sep (cur ++ c ∷ []) s
]

unfoldable pub split : Bytes → ℕ → List Bytes
unfolding split_from
split s sep = split_from sep [] s

-- strings.Cut(s, sep) for a separator of one byte: `none` if it does not occur.
unfoldable pub cut : Bytes → ℕ → Option (Bytes × Bytes)
cut [] sep = none
cut (c ∷ s) sep =
    let rest = cut s sep in
    if c == sep then some ([], s) else elim rest [ none ↦ none | some (k, v) ↦ some (c ∷ k, v) ]

-- strings.HasPrefix
unfoldable pub has_prefix : Bytes → Bytes → Bool
has_prefix s [] = true
has_prefix [] (b ∷ p) = false
has_prefix (a ∷ s) (b ∷ p) = a == b && has_prefix s p

-- What stands behind the last `sep`, `none` if there is none: `s[strings.LastIndex(s, sep)+1:]`.
unfoldable pub after_last : Bytes → ℕ → Option Bytes
after_last [] sep = none
after_last (c ∷ s) sep = elim (after_last s sep) [
  | some r ↦ some r
  | none ↦ if c == sep then some s else none
]

-- strings.ToLower on ASCII letters.
unfoldable pub to_lower : Bytes → Bytes
to_lower [] = []
to_lower (c ∷ s) = (if leb b'A' c && leb c b'Z' then c + 32 else c) ∷ to_lower s
