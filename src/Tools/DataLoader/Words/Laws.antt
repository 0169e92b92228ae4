-- ===== src/Tools/DataLoader/Words/Laws.antt =====
-- The form of the identifiers, and what the hash computes.
use Prim.Native.Nat.{bit_and, bit_or}
use native.Mathlib.Nat.{pow-suc, add-mul, mul_assoc, mul_comm, mod-add-div, add-mul-mod_self_left}
use redis_replication_contro.Base.{
  ℕ, zero, suc, ◌+◌, ◌*◌, ◌/◌, ◌%◌, ◌^◌, ◌<◌, ◌≡◌, refl, ap, sym, ◌∙◌, Bool, true, ◌&&◌, [], ◌∷◌,
  ◌==◌, arith, length, ◌⊎◌,
}
use redis_replication_contro.Base.Bytes.{Bytes}
use redis_replication_contro.Tools.FailoverProbe.Settings.{hex, hex_digit}
use redis_replication_contro.Tools.DataLoader.Words.{
  uuid_byte, hex_bytes, uuid4, hash_from, path_hash,
}

-- The bytes of a text as the digits of a number in base 31.
base_31 : Bytes → ℕ
base_31 [] = 0
base_31 (c ∷ s) = c * 31 ^ length s + base_31 s

mod_times : (x p b m : ℕ) → (x % m * p + b) % m ≡ (x * p + b) % m
mod_times x p b m =
    let parts = ap (λ n. n * p) (mod-add-div x m) in
    let same : x % m * p + b + m * (x / m * p) ≡ x * p + b =
      omega (arith, parts, add-mul (x % m) (m * (x / m)) p, mul_assoc m (x / m) p) in
    sym (add-mul-mod_self_left (x % m * p + b) m (x / m * p)) ∙ ap (λ n. n % m) same

step_mod :
    (h c p b : ℕ) → ((h * 31 + c) % 2 ^ 32 * p + b) % 2 ^ 32 ≡ (h * (p * 31) + (c * p + b)) % 2 ^ 32
step_mod h c p b =
    let same : (h * 31 + c) * p + b ≡ h * (p * 31) + (c * p + b) = omega (
      arith,
      add-mul (h * 31) c p,
      mul_assoc h 31 p,
      mul_comm 31 p,
      ap (λ n. h * n) (mul_comm 31 p),
    ) in
    mod_times (h * 31 + c) p b (2 ^ 32) ∙ ap (λ n. n % 2 ^ 32) same

hash_from-base_31 :
    (h : ℕ) (s : Bytes) → hash_from h s % 2 ^ 32 ≡ (h * 31 ^ length s + base_31 s) % 2 ^ 32
unfolding hash_from base_31
hash_from-base_31 h [] = omega arith
hash_from-base_31 h (c ∷ s) =
    hash_from-base_31 ((h * 31 + c) % 2 ^ 32) s
    ∙ step_mod h c (31 ^ length s) (base_31 s)
    ∙ ap (λ p. (h * p + (c * 31 ^ length s + base_31 s)) % 2 ^ 32) (sym (pow-suc 31 (length s)))

hash_from-lt : (h : ℕ) (s : Bytes) → h < 2 ^ 32 → hash_from h s < 2 ^ 32
unfolding hash_from
hash_from-lt h [] lt = lt
hash_from-lt h (c ∷ s) lt = hash_from-lt ((h * 31 + c) % 2 ^ 32) s (omega arith)

-- The hash of a path is the number whose digits in base 31 are its bytes, modulo 2^32.
path_hash-base_31 : (s : Bytes) → path_hash s ≡ base_31 s % 2 ^ 32
unfolding path_hash
path_hash-base_31 s = omega (arith, hash_from-base_31 0 s, hash_from-lt 0 s (omega arith))

all_bytes : ℕ → (ℕ → Bool) → Bool
all_bytes zero p = true
all_bytes (suc n) p = p n && all_bytes n p

all_bytes_at : (n : ℕ) (p : ℕ → Bool) (x : ℕ) → all_bytes n p ≡ true → x < n → p x ≡ true
unfolding all_bytes
all_bytes_at zero p x h lt = absurd (omega arith)
all_bytes_at (suc n) p x h lt = ground (arith, all_bytes_at n p x)

version_table : all_bytes 256 (λ x. bit_or (bit_and x 0x0f) 0x40 / 16 == 4) ≡ true
unfolding all_bytes
version_table = refl

variant_table : all_bytes 256 (λ x. bit_or (bit_and x 0x3f) 0x80 / 64 == 2) ≡ true
unfolding all_bytes
variant_table = refl

abbrev pub char_at : Bytes → ℕ → ℕ
char_at [] i = 0
char_at (c ∷ s) zero = c
char_at (c ∷ s) (suc i) = char_at s i

-- The variant's digit.
abbrev IsVariant : ℕ → Type 0
IsVariant c = (c ≡ b'8') ⊎ (c ≡ b'9') ⊎ (c ≡ b'a') ⊎ (c ≡ b'b')

uuid_version : (x : ℕ) → x < 256 → hex_digit (bit_or (bit_and x 0x0f) 0x40 / 16 % 16) ≡ b'4'
uuid_version x h = ground (arith, all_bytes_at 256 _ x version_table h)

uuid-IsVariant : (x : ℕ) → x < 256 → IsVariant (hex_digit (bit_or (bit_and x 0x3f) 0x80 / 16 % 16))
uuid-IsVariant x h = ground (arith, all_bytes_at 256 _ x variant_table h)

-- An identifier has 36 characters, hyphens where they belong, the version 4 and a variant of RFC 4122,
-- whatever bytes are drawn.
uuid4_form :
    (drawn : ℕ → ℕ)
    → ((i : ℕ) → drawn i < 256)
    → let s = uuid4 drawn in
      (length s ≡ 36)
      × (char_at s 8 ≡ b'-')
      × (char_at s 13 ≡ b'-')
      × (char_at s 14 ≡ b'4')
      × (char_at s 18 ≡ b'-')
      × IsVariant (char_at s 19)
      × (char_at s 23 ≡ b'-')
unfolding uuid4 uuid_byte hex_bytes hex
uuid4_form drawn bytes = (
  refl,
  refl,
  refl,
  uuid_version (drawn 6) (bytes 6),
  refl,
  uuid-IsVariant (drawn 8) (bytes 8),
  refl,
)
