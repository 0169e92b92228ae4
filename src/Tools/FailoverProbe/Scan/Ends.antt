-- ===== src/Tools/FailoverProbe/Scan/Ends.antt =====
-- The end of the loop of `scan_keys`.
use redis_replication_contro.Base.{
  ℕ, zero, suc, ◌≤◌, ◌<◌, ◌≡◌, refl, ap, ◌⊎◌, inl, inr, Bool, true, false, Option, none, some, List,
  [], ◌∷◌, ◌++◌, arith, length, length-append, Bool-cases,
}
use redis_replication_contro.Base.Result.{Result, ok, err}
use redis_replication_contro.Base.Bytes.{Bytes, codes, bytes_eq}
use redis_replication_contro.Redis.Resp
use redis_replication_contro.Redis.Resp.{RespError, Reply, nil, str, int, arr, Replies, end, item}
use redis_replication_contro.Redis.Resp.Progress.{read_reply-shorter}
use redis_replication_contro.Tools.FailoverProbe.Client.{
  Conn, ToolError, is_panic, from_reply, read_reply, receive, do_cmd, write_cmd,
}
use redis_replication_contro.Redis.Resp.Suffix.{IsSuffix, IsSuffix-refl, IsSuffix-trans}
use redis_replication_contro.Tools.FailoverProbe.Client.Crash.{
  Panics, Panics-suffix, Guarded, do_cmd-Guarded,
}
use redis_replication_contro.Tools.FailoverProbe.Scan.{
  Scanned, found, crashed, Scan, page_of, collect, collect_page, next_page, scan_page, scan_reply,
  scan_from, scan_keys,
}

from_reply-eq-ok : (x : Result RespError Reply) (r : Reply) → from_reply x ≡ ok r → x ≡ ok r
from_reply-eq-ok (ok a) r h = cc
from_reply-eq-ok (err e) r h = absurd (cc)

-- A reply is taken off what will arrive.
receive-shorter :
    (c : Conn) (r : Reply) (c' : Conn)
    → receive c ≡ (ok r, c')
    → length c'.incoming < length c.incoming
unfolding receive read_reply
receive-shorter c r c' e =
    let rest = (Resp.read_reply (suc (length c.incoming)) c.incoming).1 in
    let value =
      from_reply-eq-ok (Resp.read_reply (suc (length c.incoming)) c.incoming).0 r
        (ap (λ p. p.0) e) in
    let shorter =
      read_reply-shorter (length c.incoming) c.incoming r rest (omega arith)
        (ap (λ x. (x, rest)) value) in
    omega (arith, ap (λ p. length p.1.incoming) e)

do_cmd-shorter :
    (args : List Bytes) (c : Conn) (r : Reply) (c' : Conn)
    → do_cmd args c ≡ (ok r, c')
    → length c'.incoming < length c.incoming
unfolding do_cmd
do_cmd-shorter args c r c' e = elim (Bool-cases (c.takes_deadline c.sent)) [
  | inr f ↦ absurd (ground arith)
  | inl f ↦ elim (Bool-cases (c.takes_write (write_cmd args))) [
    | inr g ↦ absurd (ground arith)
    | inl g ↦ receive-shorter (record c { sent = c.sent ++ write_cmd args }) r c' (ground arith)
  ]
]

collect-le :
    (limit : ℕ) (rs : Replies) (keys : List Bytes)
    → length keys < limit
    → (length (collect limit rs keys).0 ≤ limit)
      × ((collect limit rs keys).1 ≡ false → length (collect limit rs keys).0 < limit)
unfolding collect
collect-le limit end keys h = (omega arith, λ _. h)
collect-le limit (item (str s) rest) keys h =
    ground (arith, length-append keys (s ∷ []), collect-le limit rest (keys ++ s ∷ []))
collect-le limit (item nil rest) keys h = collect-le limit rest keys h
collect-le limit (item (int n) rest) keys h = collect-le limit rest keys h
collect-le limit (item (arr rs) rest) keys h = collect-le limit rest keys h

collect_page-le :
    (limit : ℕ) (page : Reply) (keys : List Bytes)
    → length keys < limit
    → (length (collect_page limit page keys).0 ≤ limit)
      × ((collect_page limit page keys).1 ≡ false → length (collect_page limit page keys).0 < limit)
unfolding collect_page
collect_page-le limit nil keys h = (omega arith, λ _. h)
collect_page-le limit (str s) keys h = (omega arith, λ _. h)
collect_page-le limit (int n) keys h = (omega arith, λ _. h)
collect_page-le limit (arr rs) keys h = collect-le limit rs keys h

-- A scan of the bytes `t`: it returns at most `limit` keys, or some end of the bytes panics; and what it
-- leaves is an end of them.
pub record Within (limit : ℕ) (t : Bytes) (r : Scanned × Conn) : Type 0 where
  pub leaves : IsSuffix r.1.incoming t
  pub result :
      ((ks : List Bytes) × (r.0 ≡ found ks) × (length ks ≤ limit)) ⊎ ((r.0 ≡ crashed) × Panics t)

Within-suffix :
    (limit : ℕ) (s t : Bytes) (r : Scanned × Conn)
    → IsSuffix s t
    → Within limit s r
    → Within limit t r
Within-suffix limit s t r h w = record {
  leaves = IsSuffix-trans r.1.incoming s t w.leaves h;
  result = elim w.result [ inl x ↦ inl x | inr (e, p) ↦ inr (e, Panics-suffix s t h p) ];
}

Within-found :
    (limit : ℕ) (ks : List Bytes) (c : Conn)
    → length ks ≤ limit
    → Within limit c.incoming (found ks, c)
Within-found limit ks c h = record { leaves = IsSuffix-refl c.incoming; result = inl (ks, refl, h) }

-- What the rounds to come promise on a connection with at most `n` bytes to arrive.
abbrev Ends : ℕ → ℕ → Scan → Type 0
Ends limit n scan =
    (cursor : Bytes) (keys : List Bytes) (c : Conn)
    → length keys < limit
    → length c.incoming < n
    → Within limit c.incoming (scan cursor keys c)

next_page-Within :
    (limit n : ℕ) (scan : Scan) (cursor : Bytes) (p : List Bytes × Bool) (c : Conn)
    → Ends limit n scan
    → length p.0 ≤ limit
    → (p.1 ≡ false → length p.0 < limit)
    → length c.incoming < n
    → Within limit c.incoming (next_page scan cursor p c)
unfolding next_page
next_page-Within limit n scan cursor (keys, true) c on le room short = Within-found limit keys c le
next_page-Within limit n scan cursor (keys, false) c on le room short =
    elim (Bool-cases (bytes_eq cursor (codes "0"))) [
      | inl e ↦ rw e (Within-found limit keys c le)
      | inr e ↦ rw e (on cursor keys c (room refl) short)
    ]

scan_page-Within :
    (limit n : ℕ) (scan : Scan) (keys : List Bytes) (o : Option (Bytes × Reply)) (c : Conn)
    → Ends limit n scan
    → length keys < limit
    → length c.incoming < n
    → Within limit c.incoming (scan_page scan limit keys o c)
unfolding scan_page
scan_page-Within limit n scan keys none c on h short = Within-found limit keys c (omega arith)
scan_page-Within limit n scan keys (some (cursor, page)) c on h short =
    let (le, room) = collect_page-le limit page keys h in
    next_page-Within limit n scan cursor (collect_page limit page keys) c on le room short

scan_reply-Within :
    (limit n : ℕ) (scan : Scan) (keys : List Bytes) (t : Bytes) (r : Result ToolError Reply × Conn)
    → Ends limit n scan
    → length keys < limit
    → ((v : Reply) (c : Conn) → r ≡ (ok v, c) → length c.incoming < n)
    → Guarded t r
    → Within limit t (scan_reply scan limit keys r)
unfolding scan_reply
scan_reply-Within limit n scan keys t (err e, c) on h short g = elim (Bool-cases (is_panic e)) [
  | inl p ↦ rw p (record { leaves = g.leaves; result = inr (refl, g.panics e refl p) })
  | inr p ↦ rw p (record { leaves = g.leaves; result = inl (keys, refl, omega arith) })
]
scan_reply-Within limit n scan keys t (ok v, c) on h short g =
    Within-suffix limit c.incoming t (scan_page scan limit keys (page_of v) c) g.leaves
      (scan_page-Within limit n scan keys (page_of v) c on h (short v c refl))

scan_from-Ends : (f : ℕ) (prefix : Bytes) (limit : ℕ) → Ends limit f (scan_from f prefix limit)
unfolding scan_from
scan_from-Ends zero prefix limit cursor keys c h short = absurd (omega arith)
scan_from-Ends (suc f) prefix limit cursor keys c h short =
    let args =
      codes "SCAN"
      ∷ cursor
      ∷ codes "MATCH"
      ∷ (prefix ++ codes ":*")
      ∷ codes "COUNT"
      ∷ codes "50"
      ∷ [] in
    scan_reply-Within limit f (scan_from f prefix limit) keys c.incoming (do_cmd args c)
      (scan_from-Ends f prefix limit) h (λ v c' e. omega (arith, do_cmd-shorter args c v c' e))
      (do_cmd-Guarded args c)

-- Whatever a server sends, even if its cursor never comes back to "0", the scan of a connection on which
-- finitely many bytes will arrive ends. It returns at most `limit` keys, or it panics, and that only if
-- some end of these bytes makes `readReply` panic; and the bytes that it leaves are an end of them.
-- Condition: the limit is positive.
pub scan_keys_total :
    (prefix : Bytes) (limit : ℕ) (c : Conn)
    → 0 < limit
    → Within limit c.incoming (scan_keys prefix limit c)
unfolding scan_keys
scan_keys_total prefix limit c h =
    scan_from-Ends (suc (length c.incoming)) prefix limit (codes "0") [] c (omega arith)
      (omega arith)
