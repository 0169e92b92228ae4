-- ===== src/Tools/DataLoader/Generator/Draws.antt =====
-- The random numbers that a pair of tools/data-loader/main.go is made of, and the texts of `fmt` that it
-- uses. A value is drawn from a source, by the number of the draw; `none` is the panic of an index out of
-- range.
use redis_replication_contro.Base.{
  ℕ, zero, suc, ◌+◌, ◌-◌, ◌==◌, Option, none, some, List, [], ◌∷◌, ◌++◌, if◌then◌else◌, length,
}
use redis_replication_contro.Base.Bytes.{Bytes, codes}
use redis_replication_contro.Strconv.{format_nat}
use redis_replication_contro.Tools.FailoverProbe.Settings.{hex}
use redis_replication_contro.Tools.DataLoader.Words
use redis_replication_contro.Tools.DataLoader.Words.{uuid4}

-- `rng`: the k-th draw below `n`, and the bytes of a k-th draw that reads bytes.
pub record Source : Type 0 where
  pub intn : ℕ → ℕ → ℕ
  pub read : ℕ → ℕ → ℕ

abbrev pub Gen : Type 0 → Type 0
Gen A = Source → ℕ → Option A × ℕ

unfoldable pub on : {A B : Type 0} → Option A × ℕ → (A → Gen B) → Source → Option B × ℕ
on (none, k) f rng = (none, k)
on (some a, k) f rng = f a rng k

infixl 5 ◌>>=◌
unfoldable pub ◌>>=◌ : {A B : Type 0} → Gen A → (A → Gen B) → Gen B
unfolding on
◌>>=◌ m f rng k = on (m rng k) f rng

unfoldable pub pure : {A : Type 0} → A → Gen A
pure a rng k = (some a, k)

unfoldable pub rnd_n : ℕ → Gen ℕ
rnd_n n rng k = (some (Words.rnd_n (rng.intn k) n), k + 1)

unfoldable pub uuid : Gen Bytes
uuid rng k = (some (uuid4 (rng.read k)), k + 1)

unfoldable pub nth : {A : Type 0} → List A → ℕ → Option A
nth [] i = none
nth (x ∷ xs) zero = some x
nth (x ∷ xs) (suc i) = nth xs i

unfoldable pub at : {A : Type 0} → List A → ℕ → Gen A
at xs i rng k = (nth xs i, k)

-- `xs[rndN(len(xs))]`
unfoldable pub pick : {A : Type 0} → List A → Gen A
unfolding rnd_n at
pick xs = rnd_n (length xs) >>= at xs

unfoldable pub repeat : {A : Type 0} → ℕ → Gen A → Gen (List A)
repeat zero m = pure []
repeat (suc n) m = m >>= λ x. repeat n m >>= λ xs. pure (x ∷ xs)

-- `%05d` of a number of at most five digits.
zeros : ℕ → Bytes
zeros zero = []
zeros (suc n) = b'0' ∷ zeros n

unfoldable pub pad_5 : ℕ → Bytes
unfolding zeros
pad_5 n = let s = format_nat n in zeros (5 - length s) ++ s

-- `%x` of a 32-bit word.
drop_zeros : Bytes → Bytes
drop_zeros [] = []
drop_zeros (c ∷ []) = c ∷ []
drop_zeros (c ∷ d ∷ s) = let rest = drop_zeros (d ∷ s) in if c == b'0' then rest else c ∷ d ∷ s

unfoldable pub hex_word : ℕ → Bytes
unfolding hex drop_zeros
hex_word n = drop_zeros (hex 8 n)

-- What `Sprintf` writes behind its text for the arguments that the format does not use.
extras : List Bytes → Bytes
extras [] = []
extras (a ∷ []) = codes "string=" ++ a
extras (a ∷ b ∷ args) = codes "string=" ++ (a ++ (codes ", " ++ extras (b ∷ args)))

extra : List Bytes → Bytes
unfolding extras
extra [] = []
extra (a ∷ args) = codes "%!(EXTRA " ++ (extras (a ∷ args) ++ codes ")")

-- `Sprintf` of string arguments with a format whose only verb is `%s`.
unfoldable pub sprintf : Bytes → List Bytes → Bytes
unfolding extra
sprintf [] args = extra args
sprintf (c ∷ []) args = c ∷ extra args
sprintf (c ∷ d ∷ s) [] =
    let rest = sprintf s [] in
    let next = sprintf (d ∷ s) [] in
    if c == b'%' then (if d == b's' then codes "%!s(MISSING)" ++ rest else c ∷ next) else c ∷ next
sprintf (c ∷ d ∷ s) (a ∷ args) =
    let rest = sprintf s args in
    let next = sprintf (d ∷ s) (a ∷ args) in
    if c == b'%' then (if d == b's' then a ++ rest else c ∷ next) else c ∷ next
