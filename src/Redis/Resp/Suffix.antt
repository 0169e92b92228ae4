-- ===== src/Redis/Resp/Suffix.antt =====
-- What `readReply` of internal/redis/resp.go leaves of its input is an end of it.
use mathlib.Core.Path.{subst}
use redis_replication_contro.Base.{
  ℕ, zero, suc, ◌+◌, ◌*◌, ◌≡◌, refl, sym, ap, ◌∙◌, Bool, true, false, Option, none, some, [], ◌∷◌,
  ◌++◌, append_assoc, append-nil, arith, length, take, drop, ltb, ◌==◌, if◌then◌else◌, Bool-cases,
  Option-cases, inl, inr,
}
use redis_replication_contro.Base.Result.{Result, ok, err}
use redis_replication_contro.Base.Int.{ℤ, pos, negsuc}
use redis_replication_contro.Base.Bytes.{Bytes}
use redis_replication_contro.Strconv.{NumError, parse_int, atoi}
use redis_replication_contro.Redis.Resp.{
  Reply, str, arr, end, item, RespError, eof, redis_error, unknown_type, panic, Reader, continue,
  ◌>>=◌, pure, fail, until_newline, strip_cr, read_line, read_full, integer, bulk, items, array,
  max_alloc, reply_of, read_reply,
}

abbrev pub IsSuffix : Bytes → Bytes → Type 0
IsSuffix s t = (before : Bytes) × (before ++ s ≡ t)

pub IsSuffix-refl : (s : Bytes) → IsSuffix s s
IsSuffix-refl s = ([], refl)

pub IsSuffix-trans : (s t u : Bytes) → IsSuffix s t → IsSuffix t u → IsSuffix s u
IsSuffix-trans s t u (p, e) (q, f) = (q ++ p, append_assoc q p s ∙ ap (λ x. q ++ x) e ∙ f)

abbrev LeavesSuffix : {A : Type 0} → Reader A → Type 0
LeavesSuffix m = (s : Bytes) → IsSuffix (m s).1 s

nil-IsSuffix : (s : Bytes) → IsSuffix [] s
nil-IsSuffix s = (s, append-nil s)

continue-suffix :
    {A B : Type 0} (f : A → Reader B)
    → ((a : A) → LeavesSuffix (f a))
    → (r : Result RespError A × Bytes) → IsSuffix (continue r f).1 r.1
continue-suffix f k (ok a, s) = k a s
continue-suffix f k (err e, s) = IsSuffix-refl s

bind-suffix :
    {A B : Type 0} (m : Reader A) (f : A → Reader B)
    → LeavesSuffix m
    → ((a : A) → LeavesSuffix (f a))
    → LeavesSuffix (m >>= f)
bind-suffix m f h k s =
    IsSuffix-trans (continue (m s) f).1 (m s).1 s (continue-suffix f k (m s)) (h s)

if-suffix :
    {A : Type 0} (b : Bool) (m m' : Reader A)
    → LeavesSuffix m
    → LeavesSuffix m'
    → LeavesSuffix (if b then m else m')
if-suffix true m m' h h' = h
if-suffix false m m' h h' = h'

take-append-drop : (n : ℕ) (s : Bytes) → take n s ++ drop n s ≡ s
take-append-drop zero s = refl
take-append-drop (suc n) [] = refl
take-append-drop (suc n) (c ∷ s) = ap (λ x. c ∷ x) (take-append-drop n s)

read_full-suffix : (n : ℕ) → LeavesSuffix (read_full n)
unfolding read_full
read_full-suffix n s = elim (Bool-cases (ltb (length s) n)) [
  | inl e ↦ rw e (nil-IsSuffix s)
  | inr e ↦ rw e (take n s, take-append-drop n s)
]

until_newline-suffix : (s line rest : Bytes) → until_newline s ≡ some (line, rest) → IsSuffix rest s
unfolding until_newline
until_newline-suffix [] line rest h = absurd (cc)
until_newline-suffix (c ∷ s) line rest h = elim (Bool-cases (c == 10)) [
  | inl e ↦ (c ∷ [], ground arith)
  | inr e ↦ elim (Option-cases (until_newline s)) [
    | inl x ↦ absurd (ground arith)
    | inr ((l, r), x) ↦ let (p, y) = until_newline-suffix s l r x in (c ∷ p, ground arith)
  ]
]

abbrev line_result : Option (Bytes × Bytes) → Result RespError Bytes × Bytes
line_result o = elim o [ none ↦ (err eof, []) | some (line, rest) ↦ (ok (strip_cr line), rest) ]

read_line-suffix : LeavesSuffix read_line
unfolding read_line
read_line-suffix s = elim (Option-cases (until_newline s)) [
  | inl e ↦ subst (λ o. IsSuffix (line_result o).1 s) (sym e) (nil-IsSuffix s)
  | inr ((l, r), e) ↦
      subst (λ o. IsSuffix (line_result o).1 s) (sym e) (until_newline-suffix s l r e)
]

pure-suffix : {A : Type 0} (a : A) → LeavesSuffix (pure a)
pure-suffix a s = IsSuffix-refl s

fail-suffix : (A : Type 0) (e : RespError) → LeavesSuffix {A = A} (fail e)
fail-suffix A e s = IsSuffix-refl s

items-suffix : (n : ℕ) (read : Reader Reply) → LeavesSuffix read → LeavesSuffix (items read n)
unfolding items
items-suffix zero read h = pure-suffix end
items-suffix (suc n) read h =
    bind-suffix read _ h (λ el.
      bind-suffix (items read n) _ (items-suffix n read h) (λ els. pure-suffix (item el els)))

integer-suffix : (r : ℤ × Option NumError) → LeavesSuffix (integer r)
unfolding integer
integer-suffix (z, none) s = IsSuffix-refl s
integer-suffix (z, some e) s = IsSuffix-refl s

bulk-suffix : (text : Bytes) (o : Option ℤ) → LeavesSuffix (bulk text o)
unfolding bulk
bulk-suffix text none s = IsSuffix-refl s
bulk-suffix text (some (negsuc k)) s = IsSuffix-refl s
bulk-suffix text (some (pos k)) s =
    if-suffix (ltb max_alloc (k + 2)) (fail panic) _ (fail-suffix Reply panic)
      (bind-suffix (read_full (k + 2)) _ (read_full-suffix (k + 2))
        (λ buf. pure-suffix (str (take k buf))))
      s

array-suffix :
    (read : Reader Reply) (text : Bytes) (o : Option ℤ)
    → LeavesSuffix read
    → LeavesSuffix (array read text o)
unfolding array
array-suffix read text none h s = IsSuffix-refl s
array-suffix read text (some (negsuc k)) h s = IsSuffix-refl s
array-suffix read text (some (pos k)) h s =
    if-suffix (ltb max_alloc (16 * k)) (fail panic) _ (fail-suffix Reply panic)
      (bind-suffix (items read k) _ (items-suffix k read h) (λ els. pure-suffix (arr els))) s

reply_of-suffix :
    (read : Reader Reply) (line : Bytes) → LeavesSuffix read → LeavesSuffix (reply_of read line)
unfolding reply_of
reply_of-suffix read [] h s = IsSuffix-refl s
reply_of-suffix read (prefix ∷ rest) h s =
    if-suffix (prefix == b'+') _ _ (pure-suffix (str rest))
      (if-suffix (prefix == b'-') _ _ (fail-suffix Reply (redis_error rest)) (
        if-suffix (prefix == b':') _ _ (integer-suffix (parse_int rest)) (
          if-suffix (prefix == b'$') _ _ (bulk-suffix rest (atoi rest)) (
            if-suffix (prefix == b'*') _ _ (array-suffix read rest (atoi rest) h)
              (fail-suffix Reply (unknown_type prefix))))))
      s

pub read_reply-suffix : (f : ℕ) (s : Bytes) → IsSuffix (read_reply f s).1 s
unfolding read_reply
read_reply-suffix zero s = IsSuffix-refl s
read_reply-suffix (suc f) s =
    bind-suffix read_line (reply_of (read_reply f)) read_line-suffix
      (λ line. reply_of-suffix (read_reply f) line (read_reply-suffix f)) s
