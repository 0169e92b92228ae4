-- ===== src/Tools/DataLoader/Words.antt =====
-- The random words and the hash of tools/data-loader/main.go (`rndN`, `uuid4`, `pathHash`). The random
-- numbers are arguments.
pub mod Laws
use Prim.Native.Nat.{bit_and, bit_or}
use redis_replication_contro.Base.{
  ℕ, zero, suc, ◌+◌, ◌*◌, ◌%◌, ◌^◌, List, [], ◌∷◌, ◌++◌, ◌==◌, if◌then◌else◌,
}
use redis_replication_contro.Base.Bytes.{Bytes}
use redis_replication_contro.Tools.FailoverProbe.Settings.{hex}

-- `intn n` is the next number below `n` of the generator. A length is not negative here.
unfoldable pub rnd_n : (ℕ → ℕ) → ℕ → ℕ
rnd_n intn zero = 0
rnd_n intn (suc n) = intn (suc n)

-- The 16 bytes of `rng.Read`, with the version and the variant set.
pub uuid_byte : (ℕ → ℕ) → ℕ → ℕ
uuid_byte drawn i =
    if i == 6
    then bit_or (bit_and (drawn 6) 0x0f) 0x40
    else if i == 8
    then bit_or (bit_and (drawn 8) 0x3f) 0x80
    else drawn i

-- `%x` of `n` bytes from the i-th on.
pub hex_bytes : (ℕ → ℕ) → ℕ → ℕ → Bytes
unfolding hex
hex_bytes b i zero = []
hex_bytes b i (suc n) = hex 2 (b i) ++ hex_bytes b (i + 1) n

pub uuid4 : (ℕ → ℕ) → Bytes
unfolding uuid_byte hex_bytes
uuid4 drawn =
    let b = uuid_byte drawn in
    hex_bytes b 0 4
    ++ b'-' ∷ hex_bytes b 4 2
    ++ b'-' ∷ hex_bytes b 6 2
    ++ b'-' ∷ hex_bytes b 8 2
    ++ b'-' ∷ hex_bytes b 10 6

-- The loop over the bytes, from a value `h` of the 32-bit word.
pub hash_from : ℕ → Bytes → ℕ
hash_from h [] = h
hash_from h (c ∷ s) = hash_from ((h * 31 + c) % 2 ^ 32) s

pub path_hash : Bytes → ℕ
unfolding hash_from
path_hash s = hash_from 0 s
