-- ===== src/Redis/Resp/RoundTrip.antt =====
-- `readReply` on what `writeCommand` wrote.
use mathlib.Core.Option.{some-injective}
use redis_replication_contro.Base.{
  ℕ, suc, ◌+◌, ◌*◌, ◌<◌, ◌≤◌, ◌≡◌, ◌≢◌, refl, sym, ap, ◌∙◌, some, List, [], ◌∷◌, ◌++◌, append_assoc,
  arith, length, length-append, take-append_self, drop-append_self, All,
}
use redis_replication_contro.Base.Result.{ok}
use redis_replication_contro.Base.Int.{pos, two63}
use redis_replication_contro.Base.Bytes.{Bytes}
use redis_replication_contro.Strconv.{atoi, format_nat, format_int}
use redis_replication_contro.Strconv.RoundTrip.{format_nat-All, atoi-format_int, IsDigit}
use redis_replication_contro.Redis.Resp.{
  str, arr, Replies, end, item, crlf, write_bulk, write_bulks, write_command, read_line, read_full,
  max_alloc, bulk, items, array, reply_of, read_reply,
}
use redis_replication_contro.Redis.Resp.Lines.{LacksNewline, read_line-append}

-- `make` can allocate an argument with its CRLF.
abbrev pub Fits : Bytes → Type 0
Fits a = length a + 2 ≤ max_alloc

abbrev pub strings : List Bytes → Replies
strings [] = end
strings (a ∷ args) = item (str a) (strings args)

digits-LacksNewline : (s : Bytes) → All IsDigit s → LacksNewline s
digits-LacksNewline [] h = tt
digits-LacksNewline (c ∷ s) (h, hs) = (ground arith, digits-LacksNewline s hs)

-- A line `<tag><n>\r\n` is read whole.
read_header :
    (tag n : ℕ) (rest : Bytes)
    → tag ≢ 10
    → read_line (tag ∷ format_nat n ++ (crlf ++ rest)) ≡ (ok (tag ∷ format_nat n), rest)
read_header tag n rest h =
    read_line-append (tag ∷ format_nat n) rest
      (h, digits-LacksNewline (format_nat n) (format_nat-All n))

atoi-format_nat : (n : ℕ) → n < two63 → atoi (format_nat n) ≡ some (pos n)
atoi-format_nat n h = unfold format_int in atoi-format_int (pos n) (omega arith)

read_full-append :
    (n : ℕ) (buf rest : Bytes) → n ≡ length buf → read_full n (buf ++ rest) ≡ (ok buf, rest)
unfolding read_full
read_full-append n buf rest e =
    rw e
      (ground (arith, length-append buf rest, take-append_self buf rest, drop-append_self buf rest))

bulk_body :
    (text a rest : Bytes)
    → Fits a
    → bulk text (some (pos (length a))) (a ++ (crlf ++ rest)) ≡ (ok (str a), rest)
unfolding bulk
bulk_body text a rest fits = ground (
  arith,
  append_assoc a crlf rest,
  read_full-append (length a + 2) (a ++ crlf) rest (omega (arith, length-append {0} a crlf)),
  take-append_self a crlf,
)

write_bulk-append :
    (a rest : Bytes)
    → write_bulk a ++ rest ≡ b'$' ∷ format_nat (length a) ++ (crlf ++ (a ++ (crlf ++ rest)))
unfolding write_bulk
write_bulk-append a rest = simp append_assoc

pub read_reply-write_bulk :
    (f : ℕ) (a rest : Bytes)
    → Fits a
    → read_reply (suc f) (write_bulk a ++ rest) ≡ (ok (str a), rest)
unfolding read_reply reply_of
read_reply-write_bulk f a rest fits = ground (
  arith,
  write_bulk-append a rest,
  read_header b'$' (length a) (a ++ (crlf ++ rest)),
  atoi-format_nat (length a),
  bulk_body (format_nat (length a)) a rest,
)

items-write_bulks :
    (f : ℕ) (args : List Bytes) (rest : Bytes)
    → All Fits args
    → items (read_reply (suc f)) (length args) (write_bulks args ++ rest)
      ≡ (ok (strings args), rest)
unfolding items write_bulks
items-write_bulks f [] rest h = refl
items-write_bulks f (a ∷ args) rest (h, hs) = ground (
  arith,
  append_assoc (write_bulk a) (write_bulks args) rest,
  read_reply-write_bulk f a (write_bulks args ++ rest) h,
  items-write_bulks f args rest hs,
)

read_array :
    (f : ℕ) (args : List Bytes) (rest : Bytes)
    → 16 * length args ≤ max_alloc
    → All Fits args
    → read_reply
        (suc (suc f))
        (b'*' ∷ format_nat (length args) ++ (crlf ++ (write_bulks args ++ rest)))
      ≡ (ok (arr (strings args)), rest)
unfolding read_reply reply_of array
read_array f args rest few fits = ground (
  arith,
  read_header b'*' (length args) (write_bulks args ++ rest),
  atoi-format_nat (length args),
  items-write_bulks f args rest fits,
)

write_command-append :
    (a : Bytes) (args : List Bytes) (sent rest : Bytes)
    → write_command (a ∷ args) ≡ some sent
    → sent ++ rest
      ≡ b'*' ∷ format_nat (length (a ∷ args)) ++ (crlf ++ (write_bulks (a ∷ args) ++ rest))
unfolding write_command
write_command-append a args sent rest e =
    ap (λ u. u ++ rest) (sym (some-injective _ _ e))
    ∙ append_assoc (b'*' ∷ format_nat (length (a ∷ args))) (crlf ++ write_bulks (a ∷ args)) rest

-- The bytes that `writeCommand` writes for at least one argument are read back as the array of these
-- arguments, whatever bytes they hold, and what follows is left unread. Condition: `make` can
-- allocate each argument with its CRLF, and an array of their number. Two levels of nesting are enough.
pub read_reply-write_command :
    (f : ℕ) (args : List Bytes) (sent rest : Bytes)
    → 16 * length args ≤ max_alloc
    → All Fits args
    → write_command args ≡ some sent
    → read_reply (suc (suc f)) (sent ++ rest) ≡ (ok (arr (strings args)), rest)
unfolding write_command
read_reply-write_command f [] sent rest few fits e = cc
read_reply-write_command f (a ∷ args) sent rest few fits e =
    rw (write_command-append a args sent rest e) (read_array f (a ∷ args) rest few fits)
