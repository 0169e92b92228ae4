-- ===== src/Redis/Resp/Fuel.antt =====
-- The fuel of `read_reply` and the input that it leaves.
use native.Mathlib.Nat.{le_refl, le_trans}
use redis_replication_contro.Base.{
  ℕ, zero, suc, ◌+◌, ◌-◌, ◌<◌, ◌≤◌, ◌≡◌, ◌≢◌, ap, Bool, true, false, Option, none, some, [], ◌∷◌,
  arith, length, length-drop, take, ltb, ◌*◌, ◌==◌, if◌then◌else◌, Bool-cases, Option-cases, ◌⊎◌,
  inl, inr,
}
use redis_replication_contro.Base.Result.{Result, ok, err}
use redis_replication_contro.Base.Int.{ℤ, pos, negsuc}
use redis_replication_contro.Base.Bytes.{Bytes}
use redis_replication_contro.Strconv.{NumError, parse_int, atoi}
use redis_replication_contro.Redis.Resp.{
  Reply, nil, str, int, arr, end, item, RespError, eof, panic, out_of_fuel, empty_line, redis_error,
  bad_integer, bad_bulk_length, bad_array_length, unknown_type, Reader, continue, ◌>>=◌, pure, fail,
  until_newline, strip_cr, read_line, read_full, integer, bulk, items, array, max_alloc, reply_of,
  read_reply,
}
use redis_replication_contro.Redis.Resp.Lines.{read_line-shorter}

-- From any input of at most `n` bytes the reader leaves no more than it found and has enough fuel.
pub record Runs {A : Type 0} (n : ℕ) (m : Reader A) : Type 0 where
  pub rest : (s : Bytes) → length s ≤ n → length (m s).1 ≤ length s
  pub fuelled : (s : Bytes) → length s ≤ n → (m s).0 ≢ err out_of_fuel

read_full-Runs : (n k : ℕ) → Runs n (read_full k)
unfolding read_full
read_full-Runs n k = record {
  rest = λ s h. ground (arith, length-drop k s);
  fuelled = λ s h. ground arith;
}

err-injective :
    {A : Type 0} {e e' : RespError} → ◌≡◌ {A = Result RespError A} (err e) (err e') → e ≡ e'
err-injective h = cc

Runs-pure : {A : Type 0} (n : ℕ) (a : A) → Runs n (pure a)
Runs-pure n a = record { rest = λ s h. le_refl (length s); fuelled = λ s h. cc }

Runs-fail : {A : Type 0} (n : ℕ) (e : RespError) → e ≢ out_of_fuel → Runs {A = A} n (fail e)
Runs-fail n e h = record {
  rest = λ s _. le_refl (length s);
  fuelled = λ s _ x. h (err-injective x);
}

continue_rest :
    {A B : Type 0} (n : ℕ) (f : A → Reader B)
    → ((a : A) → Runs n (f a))
    → (r : Result RespError A × Bytes) → length r.1 ≤ n
    → length (continue r f).1 ≤ length r.1
continue_rest n f k (ok a, s) h = (k a).rest s h
continue_rest n f k (err e, s) h = le_refl (length s)

continue_fuelled :
    {A B : Type 0} (n : ℕ) (f : A → Reader B)
    → ((a : A) → Runs n (f a))
    → (r : Result RespError A × Bytes) → length r.1 ≤ n
    → r.0 ≢ err out_of_fuel
    → (continue r f).0 ≢ err out_of_fuel
continue_fuelled n f k (ok a, s) h x = (k a).fuelled s h
continue_fuelled n f k (err e, s) h x = λ y. x (ap err (err-injective y))

Runs-bind :
    {A B : Type 0} (n : ℕ) (m : Reader A) (f : A → Reader B)
    → Runs n m
    → ((a : A) → Runs n (f a))
    → Runs n (m >>= f)
Runs-bind n m f h k = record {
  rest = λ s fits.
      le_trans (continue_rest n f k (m s) (le_trans (h.rest s fits) fits)) (h.rest s fits);
  fuelled =
      λ s fits. continue_fuelled n f k (m s) (le_trans (h.rest s fits) fits) (h.fuelled s fits);
}

items-Runs : (n k : ℕ) (read : Reader Reply) → Runs n read → Runs n (items read k)
unfolding items
items-Runs n zero read h = Runs-pure n end
items-Runs n (suc k) read h =
    Runs-bind n read _ h (λ el.
      Runs-bind n (items read k) _ (items-Runs n k read h) (λ els. Runs-pure n (item el els)))

integer-Runs : (n : ℕ) (r : ℤ × Option NumError) → Runs n (integer r)
unfolding integer
integer-Runs n (z, none) = Runs-pure n (int z)
integer-Runs n (z, some e) = Runs-fail n (bad_integer e) (λ x. cc)

bulk-Runs : (n : ℕ) (text : Bytes) (o : Option ℤ) → Runs n (bulk text o)
unfolding bulk
bulk-Runs n text none = Runs-fail n (bad_bulk_length text) (λ x. cc)
bulk-Runs n text (some (negsuc k)) = Runs-pure n nil
bulk-Runs n text (some (pos k)) = elim (Bool-cases (ltb max_alloc (k + 2))) [
  | inl e ↦ rw e (Runs-fail n panic (λ x. cc))
  | inr e ↦ rw e (
      Runs-bind n (read_full (k + 2)) _ (read_full-Runs n (k + 2))
        (λ buf. Runs-pure n (str (take k buf))))
]

array-Runs :
    (n : ℕ) (read : Reader Reply) (text : Bytes) (o : Option ℤ)
    → Runs n read
    → Runs n (array read text o)
unfolding array
array-Runs n read text none h = Runs-fail n (bad_array_length text) (λ x. cc)
array-Runs n read text (some (negsuc k)) h = Runs-pure n nil
array-Runs n read text (some (pos k)) h = elim (Bool-cases (ltb max_alloc (16 * k))) [
  | inl e ↦ rw e (Runs-fail n panic (λ x. cc))
  | inr e ↦
      rw e (Runs-bind n (items read k) _ (items-Runs n k read h) (λ els. Runs-pure n (arr els)))
]

Runs-if :
    {A : Type 0} (n : ℕ) (b : Bool) (m m' : Reader A)
    → Runs n m
    → Runs n m'
    → Runs n (if b then m else m')
Runs-if n true m m' h h' = h
Runs-if n false m m' h h' = h'

pub reply_of-Runs :
    (n : ℕ) (read : Reader Reply) (line : Bytes) → Runs n read → Runs n (reply_of read line)
unfolding reply_of
reply_of-Runs n read [] h = Runs-fail n empty_line (λ x. cc)
reply_of-Runs n read (prefix ∷ rest) h = Runs-if n (prefix == b'+') _ _ (Runs-pure n (str rest)) (
    Runs-if n (prefix == b'-') _ _ (Runs-fail n (redis_error rest) (λ x. cc)) (
      Runs-if n (prefix == b':') _ _ (integer-Runs n (parse_int rest)) (
        Runs-if n (prefix == b'$') _ _ (bulk-Runs n rest (atoi rest)) (
          Runs-if n (prefix == b'*') _ _ (array-Runs n read rest (atoi rest) h)
            (Runs-fail n (unknown_type prefix) (λ x. cc))))))

pub line_cases :
    (s : Bytes)
    → (read_line s ≡ (err eof, [])) ⊎ ((r : Bytes × Bytes) × (read_line s ≡ (ok r.0, r.1)))
unfolding read_line
line_cases s = elim (Option-cases (until_newline s)) [
  | inl e ↦ inl (ground arith)
  | inr ((line, rest), e) ↦ inr ((strip_cr line, rest), ground arith)
]

pub read_reply_step :
    (f : ℕ) (s line rest : Bytes)
    → read_line s ≡ (ok line, rest)
    → read_reply (suc f) s ≡ reply_of (read_reply f) line rest
unfolding read_reply
read_reply_step f s line rest e = rw e

pub read_reply_eof :
    (f : ℕ) (s : Bytes) → read_line s ≡ (err eof, []) → read_reply (suc f) s ≡ (err eof, [])
unfolding read_reply
read_reply_eof f s e = rw e

-- The two facts at one input, after its first line has been read.
after_line :
    (f n : ℕ) (s : Bytes)
    → length s ≤ n
    → ((line rest : Bytes)
        → read_line s ≡ (ok line, rest)
        → Runs (n - 1) (reply_of (read_reply f) line))
    → (length (read_reply (suc f) s).1 ≤ length s) × ((read_reply (suc f) s).0 ≢ err out_of_fuel)
after_line f n s fits inner = elim (line_cases s) [
  | inl e ↦ rw (read_reply_eof f s e) (omega arith, λ x. cc)
  | inr ((line, rest), e) ↦
      let shorter = read_line-shorter s line rest e in
      rw (read_reply_step f s line rest e) (
        le_trans ((inner line rest e).rest rest (omega arith)) (omega arith),
        (inner line rest e).fuelled rest (omega arith),
      )
]

nonempty_of_line :
    (s line rest : Bytes) (n : ℕ) → length s ≤ n → read_line s ≡ (ok line, rest) → 0 < n
nonempty_of_line s line rest n fits e = omega (arith, read_line-shorter s line rest e)

read_reply-Runs-suc :
    (f : ℕ)
    → ((n : ℕ) → n < f → Runs n (read_reply f))
    → (n : ℕ) → n < suc f
    → Runs n (read_reply (suc f))
read_reply-Runs-suc f ih n h = record {
  rest = λ s fits. (facts s fits).0;
  fuelled = λ s fits. (facts s fits).1;
}
  where
    inner :
        (s : Bytes)
        → length s ≤ n
        → (line rest : Bytes) → read_line s ≡ (ok line, rest)
        → Runs (n - 1) (reply_of (read_reply f) line)
    inner s fits line rest e =
        let p = nonempty_of_line s line rest n fits e in
        reply_of-Runs (n - 1) (read_reply f) line (ih (n - 1) (omega arith))

    facts :
        (s : Bytes)
        → length s ≤ n
        → (length (read_reply (suc f) s).1 ≤ length s)
          × ((read_reply (suc f) s).0 ≢ err out_of_fuel)
    facts s fits = after_line f n s fits (inner s fits)

pub read_reply-Runs : (f n : ℕ) → n < f → Runs n (read_reply f)
read_reply-Runs zero n h = absurd (omega arith)
read_reply-Runs (suc f) n h = read_reply-Runs-suc f (read_reply-Runs f) n h

-- With more fuel than there are bytes to read, `read_reply` comes to an end, with a value, with one
-- of the program's own errors, or with the panic of a `make` that is out of range, and never for want of
-- fuel; and it leaves at most the input that it was given.
pub read_reply_total :
    (f : ℕ) (s : Bytes)
    → length s < f
    → ((read_reply f s).0 ≢ err out_of_fuel) × (length (read_reply f s).1 ≤ length s)
read_reply_total f s h =
    let runs = read_reply-Runs f (length s) h in
    (runs.fuelled s (le_refl (length s)), runs.rest s (le_refl (length s)))
