-- ===== src/Base/Result.antt =====
-- Go's `(value, error)` results, where the value counts only without an error.
use mathlib.Core.Path.{◌≡◌, refl}

pub data Result {ℓ} (E A : Type ℓ) : Type ℓ where
  err : E → Result E A
  ok : A → Result E A

infixl 5 ◌>>=◌
abbrev pub ◌>>=◌ {ℓ} : {E V W : Type ℓ} → Result E V → (V → Result E W) → Result E W
◌>>=◌ (err failure) next = err failure
◌>>=◌ (ok value) next = next value

infixl 5 ◌>>◌
abbrev pub ◌>>◌ {ℓ} : {E W : Type ℓ} → Result E (Unit {ℓ}) → Result E W → Result E W
r >> next = r >>= λ done. next

-- A successful chain went through a successful first step.
pub >>=-eq-ok {ℓ} :
    {E V W : Type ℓ} (r : Result E V) (next : V → Result E W) {w : W}
    → (r >>= next) ≡ ok w
    → (v : V) × (r ≡ ok v) × (next v ≡ ok w)
>>=-eq-ok (ok v) next h = (v, refl, h)
>>=-eq-ok (err e) next h = cc
