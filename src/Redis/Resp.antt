-- ===== src/Redis/Resp.antt =====
-- internal/redis/resp.go. A `bufio.Reader` is the list of bytes that are still to come; what was read
-- before an error stays read. `readReply` calls itself once for each level of nested arrays, and a
-- level reads at least one byte: the fuel counts levels, and more fuel than there are bytes is enough.
-- A length for which `make` is out of range panics; below that, memory is taken to suffice.
pub mod Lines
pub mod RoundTrip
pub mod Fuel
pub mod Progress
pub mod Suffix
use redis_replication_contro.Base.{
  ℕ, zero, suc, ◌+◌, ◌*◌, Bool, true, false, Option, none, some, List, [], ◌∷◌, ◌++◌, ltb, leb,
  ◌==◌, if◌then◌else◌, length, take, drop,
}
use redis_replication_contro.Base.Result.{Result, ok, err}
use redis_replication_contro.Base.Int.{ℤ, pos, negsuc}
use redis_replication_contro.Base.Bytes.{Bytes}
use redis_replication_contro.Strconv.{NumError, parse_int, atoi, format_nat}

-- The dynamic values that `readReply` returns.
mutual
  pub data Reply : Type 0 where
    nil : Reply
    str : Bytes → Reply
    int : ℤ → Reply
    arr : Replies → Reply

  pub data Replies : Type 0 where
    end : Replies
    item : Reply → Replies → Replies

pub data RespError : Type 0 where
  eof empty_line panic out_of_fuel : RespError
  redis_error : Bytes → RespError
  bad_integer : NumError → RespError
  bad_bulk_length bad_array_length : Bytes → RespError
  unknown_type : ℕ → RespError

abbrev pub Reader : Type 0 → Type 0
Reader A = Bytes → Result RespError A × Bytes

abbrev pub continue :
    {A B : Type 0} → Result RespError A × Bytes → (A → Reader B) → Result RespError B × Bytes
continue (ok a, s) f = f a s
continue (err e, s) f = (err e, s)

infixl 5 ◌>>=◌
abbrev pub ◌>>=◌ : {A B : Type 0} → Reader A → (A → Reader B) → Reader B
◌>>=◌ m f s = continue (m s) f

abbrev pub pure : {A : Type 0} → A → Reader A
pure a s = (ok a, s)

abbrev pub fail : {A : Type 0} → RespError → Reader A
fail e s = (err e, s)

abbrev pub crlf : Bytes
crlf = 13 ∷ 10 ∷ []

-- One argument of `writeCommand`: `$<length>\r\n<bytes>\r\n`.
unfoldable pub write_bulk : Bytes → Bytes
write_bulk a = b'$' ∷ format_nat (length a) ++ (crlf ++ (a ++ crlf))

unfoldable pub write_bulks : List Bytes → Bytes
unfolding write_bulk
write_bulks [] = []
write_bulks (a ∷ args) = write_bulk a ++ write_bulks args

-- What `writeCommand` hands to the writer; `none` is the error "empty command".
unfoldable pub write_command : List Bytes → Option Bytes
unfolding write_bulks
write_command [] = none
write_command (a ∷ args) =
    some (b'*' ∷ format_nat (length (a ∷ args)) ++ (crlf ++ write_bulks (a ∷ args)))

-- `ReadBytes('\n')`, without the newline; `none` at the end of the input.
unfoldable pub until_newline : Bytes → Option (Bytes × Bytes)
until_newline [] = none
until_newline (c ∷ s) =
    let rest = until_newline s in
    if c == 10
    then some ([], s)
    else elim rest [ none ↦ none | some (line, after) ↦ some (c ∷ line, after) ]

-- Drops the CR before the newline, if it is there.
unfoldable pub strip_cr : Bytes → Bytes
strip_cr [] = []
strip_cr (c ∷ []) = if c == 13 then [] else c ∷ []
strip_cr (c ∷ d ∷ s) = c ∷ strip_cr (d ∷ s)

unfoldable pub read_line : Reader Bytes
unfolding until_newline strip_cr
read_line s = elim (until_newline s) [
  | none ↦ (err eof, [])
  | some (line, rest) ↦ (ok (strip_cr line), rest)
]

-- io.ReadFull into a buffer of `n` bytes
unfoldable pub read_full : ℕ → Reader Bytes
read_full n s = if ltb (length s) n then (err eof, []) else (ok (take n s), drop n s)

integer : ℤ × Option NumError → Reader Reply
integer (n, none) = pure (int n)
integer (n, some e) = fail (bad_integer e)

-- `make` panics for a slice of more than 2^48 bytes, the runtime's limit on a 64-bit Linux; an element of
-- the array takes 16 bytes. `n+2` overflows only above that.
abbrev pub max_alloc : ℕ
max_alloc = 281474976710656

bulk : Bytes → Option ℤ → Reader Reply
bulk text none = fail (bad_bulk_length text)
bulk text (some (negsuc n)) = pure nil
bulk text (some (pos n)) =
    if ltb max_alloc (n + 2)
    then fail panic
    else read_full (n + 2) >>= λ buf. pure (str (take n buf))

-- The loop over the elements of an array.
items : Reader Reply → ℕ → Reader Replies
items read zero = pure end
items read (suc n) = read >>= λ el. items read n >>= λ els. pure (item el els)

array : Reader Reply → Bytes → Option ℤ → Reader Reply
unfolding items
array read text none = fail (bad_array_length text)
array read text (some (negsuc n)) = pure nil
array read text (some (pos n)) =
    let fill = items read n >>= λ els. pure (arr els) in
    if ltb max_alloc (16 * n) then fail panic else fill

-- The reply that a line begins; `read` reads the elements of an array.
unfoldable pub reply_of : Reader Reply → Bytes → Reader Reply
unfolding integer bulk array
reply_of read [] = fail empty_line
reply_of read (prefix ∷ rest) =
    if prefix == b'+'
    then pure (str rest)
    else if prefix == b'-'
    then fail (redis_error rest)
    else if prefix == b':'
    then integer (parse_int rest)
    else if prefix == b'$'
    then bulk rest (atoi rest)
    else if prefix == b'*'
    then array read rest (atoi rest)
    else fail (unknown_type prefix)

unfoldable pub read_reply : ℕ → Reader Reply
unfolding read_line read_full reply_of
read_reply zero = fail out_of_fuel
read_reply (suc f) = read_line >>= reply_of (read_reply f)
