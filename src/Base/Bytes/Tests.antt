-- ===== src/Base/Bytes/Tests.antt =====
-- The string functions on concrete texts.
use mathlib.Core.Path.{◌≡◌, refl}
use mathlib.Core.List.{[], ◌∷◌}
use redis_replication_contro.Base.Bytes.{codes, trim_space, split}

trimmed : trim_space (codes " \t a b\r\n") ≡ codes "a b"
unfolding trim_space
trimmed = refl

trimmed_wide : trim_space (0xc2 ∷ 0xa0 ∷ b'x' ∷ 0xe3 ∷ 0x80 ∷ 0x80 ∷ []) ≡ codes "x"
unfolding trim_space
trimmed_wide = refl

split_commas : split (codes "a,,b") b',' ≡ codes "a" ∷ [] ∷ codes "b" ∷ []
unfolding split
split_commas = refl
