-- ===== src/Tools/DataLoader/Generator/Total.antt =====
-- Which draws give a value, and which values.
use redis_replication_contro.Base.{
  ℕ, zero, suc, ◌<◌, ◌≡◌, refl, sym, ◌∙◌, Option, none, some, List, [], ◌∷◌, arith, length, All,
}
use mathlib.Core.Option.{some-injective}
use mathlib.Core.Path.{subst}
use redis_replication_contro.Base.Bytes.{Bytes}
use redis_replication_contro.Tools.DataLoader.Words
use redis_replication_contro.Tools.DataLoader.Generator.Draws.{
  Source, Gen, on, ◌>>=◌, pure, rnd_n, uuid, nth, at, pick, repeat,
}
use redis_replication_contro.Tools.DataLoader.Generator.Values.{numbered, flip}

-- `rng.Intn(n)` is a number below `n`, as its documentation says.
abbrev pub IsUniform : Source → Type 0
IsUniform rng = (k n : ℕ) → 0 < n → rng.intn k n < n

-- From any state of the source a value with the property comes out: nothing panics.
pub record Gives {A : Type 0} (rng : Source) (P : A → Type 0) (m : Gen A) : Type 0 where
  pub runs : (k : ℕ) → (a : A) × (((m rng k).0 ≡ some a) × P a)

abbrev pub Total : {A : Type 0} → Source → Gen A → Type 0
Total rng m = Gives rng (λ x. Unit) m

on-Gives :
    {A B : Type 0} (rng : Source) (Q : B → Type 0) (f : A → Gen B) (r : Option A × ℕ) (a : A)
    → r.0 ≡ some a
    → Gives rng Q (f a)
    → (b : B) × (((on r f rng).0 ≡ some b) × Q b)
unfolding on
on-Gives rng Q f (none, k) a e h = absurd (cc)
on-Gives rng Q f (some x, k) a e h =
    let same = some-injective _ _ e in (subst (λ y. Gives rng Q (f y)) (sym same) h).runs k

pub bind-Gives :
    {A B : Type 0} {rng : Source} {P : A → Type 0} {Q : B → Type 0} {m : Gen A} {f : A → Gen B}
    → Gives rng P m
    → ((a : A) → P a → Gives rng Q (f a))
    → Gives rng Q (m >>= f)
unfolding ◌>>=◌
bind-Gives {rng} {P} {Q} {m} {f} h g = record {
  runs = λ k. let (a, (e, p)) = h.runs k in on-Gives rng Q f (m rng k) a e (g a p);
}

pub pure-Gives : {A : Type 0} {rng : Source} {P : A → Type 0} (a : A) → P a → Gives rng P (pure a)
unfolding pure
pure-Gives a p = record { runs = λ k. (a, (refl, p)) }

pub rnd_n-Total : {rng : Source} (n : ℕ) → Total rng (rnd_n n)
unfolding rnd_n
rnd_n-Total n = record { runs = λ k. (_, (refl, tt)) }

pub uuid-Total : {rng : Source} → Total rng uuid
unfolding uuid
uuid-Total = record { runs = λ k. (_, (refl, tt)) }

-- One draw after the other.
infixr 2 ◌▷◌
pub ◌▷◌ :
    {A B : Type 0} {rng : Source} {Q : B → Type 0} {m : Gen A} {f : A → Gen B}
    → Total rng m
    → ((a : A) → Gives rng Q (f a))
    → Gives rng Q (m >>= f)
h ▷ g = bind-Gives h (λ a p. g a)

pub numbered-Total : {rng : Source} (prefix : Bytes) (low n : ℕ) → Total rng (numbered prefix low n)
unfolding numbered
numbered-Total prefix low n = rnd_n-Total n ▷ λ k. pure-Gives _ tt

pub flip-Total : {rng : Source} → Total rng flip
unfolding flip
flip-Total = rnd_n-Total 2 ▷ λ k. pure-Gives _ tt

nth-All :
    {A : Type 0} (P : A → Type 0) (xs : List A) (i : ℕ)
    → All P xs
    → i < length xs
    → (a : A) × ((nth xs i ≡ some a) × P a)
unfolding nth
nth-All P [] i h lt = absurd (omega arith)
nth-All P (x ∷ xs) zero (p, h) lt = (x, (refl, p))
nth-All P (x ∷ xs) (suc i) (p, h) lt = nth-All P xs i h (omega arith)

rnd_n-Below : {rng : Source} → IsUniform rng → (n : ℕ) → 0 < n → Gives rng (λ x. x < n) (rnd_n n)
unfolding rnd_n Words.rnd_n
rnd_n-Below uniform zero h = absurd (omega arith)
rnd_n-Below uniform (suc n) h = record { runs = λ k. (_, (refl, uniform k (suc n) h)) }

pub pick-Gives :
    {A : Type 0} {rng : Source} {P : A → Type 0}
    → IsUniform rng
    → (xs : List A) → 0 < length xs
    → All P xs
    → Gives rng P (pick xs)
unfolding pick at
pick-Gives {A} {rng} {P} uniform xs filled h =
    bind-Gives (rnd_n-Below uniform (length xs) filled)
      (λ i lt. record { runs = λ k. nth-All P xs i h lt })

All-Unit : {A : Type 0} (xs : List A) → All {0, 0} (λ x. Unit) xs
All-Unit [] = tt
All-Unit (x ∷ xs) = (tt, All-Unit xs)

pub pick-Total :
    {A : Type 0} {rng : Source}
    → IsUniform rng
    → (xs : List A) → 0 < length xs
    → Total rng (pick xs)
pick-Total uniform xs filled = pick-Gives uniform xs filled (All-Unit xs)

-- A loop that fills a list of length `n`.
pub repeat-length :
    {A : Type 0} {rng : Source} {m : Gen A} (n : ℕ)
    → Total rng m
    → Gives rng (λ xs. length xs ≡ n) (repeat n m)
unfolding repeat
repeat-length zero h = pure-Gives _ refl
repeat-length (suc n) h = h ▷ λ x. bind-Gives (repeat-length n h) λ xs e. pure-Gives _ (omega arith)

pub repeat-Total :
    {A : Type 0} {rng : Source} {m : Gen A} (n : ℕ) → Total rng m → Total rng (repeat n m)
repeat-Total n h = record {
  runs = λ k. let (xs, (e, p)) = (repeat-length n h).runs k in (xs, (e, tt));
}

-- What came out has the property.
pub value_of :
    {A : Type 0} {rng : Source} {P : A → Type 0} {m : Gen A}
    → Gives rng P m
    → (k : ℕ) (a : A) → (m rng k).0 ≡ some a
    → P a
value_of {A} {rng} {P} h k a e =
    let (b, (out, p)) = h.runs k in subst P (some-injective _ _ (sym out ∙ e)) p
