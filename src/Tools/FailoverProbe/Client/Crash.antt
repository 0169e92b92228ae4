-- ===== src/Tools/FailoverProbe/Client/Crash.antt =====
-- When a command of tools/failover-probe/main.go panics, and what it leaves of the bytes to come.
use redis_replication_contro.Base.{
  suc, ◌≡◌, refl, sym, ap, ◌∙◌, Bool, true, false, none, [], ◌∷◌, ◌++◌, List, length, if◌then◌else◌,
  Bool-cases, inl, inr,
}
use redis_replication_contro.Base.Result.{Result, ok, err}
use redis_replication_contro.Base.Bytes.{Bytes, codes}
use redis_replication_contro.Redis.Resp
use redis_replication_contro.Redis.Resp.{
  Reply, nil, str, int, arr, RespError, eof, empty_line, panic, out_of_fuel, redis_error,
  bad_integer, bad_bulk_length, bad_array_length, unknown_type,
}
use redis_replication_contro.Redis.Resp.Suffix.{
  IsSuffix, IsSuffix-refl, IsSuffix-trans, read_reply-suffix,
}
use redis_replication_contro.Tools.FailoverProbe.Client.{
  Conn, ToolError, deadline_refused, write_failed, unreadable, unexpected, is_panic, from_reply,
  read_reply, receive, do_cmd, write_cmd, get_reply, incr_reply, of_reply, get, incr, identified,
  identify,
}

-- Some end of what is to come makes `readReply` panic.
abbrev pub Panics : Bytes → Type 0
Panics t =
    (s : Bytes) × IsSuffix s t × ((Resp.read_reply (suc (length s)) s).0 ≡ err RespError.panic)

pub Panics-suffix : (s t : Bytes) → IsSuffix s t → Panics s → Panics t
Panics-suffix s t h (u, k, e) = (u, IsSuffix-trans u s t k h, e)

is_panic-true : (e : ToolError) → is_panic e ≡ true → e ≡ unreadable panic
is_panic-true (unreadable panic) h = refl
is_panic-true (unreadable eof) h = absurd (cc)
is_panic-true (unreadable empty_line) h = absurd (cc)
is_panic-true (unreadable out_of_fuel) h = absurd (cc)
is_panic-true (unreadable (redis_error m)) h = absurd (cc)
is_panic-true (unreadable (bad_integer m)) h = absurd (cc)
is_panic-true (unreadable (bad_bulk_length m)) h = absurd (cc)
is_panic-true (unreadable (bad_array_length m)) h = absurd (cc)
is_panic-true (unreadable (unknown_type m)) h = absurd (cc)
is_panic-true deadline_refused h = absurd (cc)
is_panic-true write_failed h = absurd (cc)
is_panic-true (unexpected r) h = absurd (cc)

-- With the bytes `t` to come, a command leaves an end of them, and panics only if they make it.
pub record Guarded {A : Type 0} (t : Bytes) (r : Result ToolError A × Conn) : Type 0 where
  pub leaves : IsSuffix r.1.incoming t
  pub panics : (e : ToolError) → r.0 ≡ err e → is_panic e ≡ true → Panics t

if-Guarded :
    {A : Type 0} (t : Bytes) (b : Bool) (x y : Result ToolError A × Conn)
    → Guarded t x
    → Guarded t y
    → Guarded t (if b then x else y)
if-Guarded t true x y hx hy = hx
if-Guarded t false x y hx hy = hy

err-injective :
    {A : Type 0} {e e' : ToolError} → ◌≡◌ {A = Result ToolError A} (err e) (err e') → e ≡ e'
err-injective h = cc

from_reply-panic :
    (x : Result RespError Reply) (e : ToolError)
    → from_reply x ≡ err e
    → is_panic e ≡ true
    → x ≡ err panic
from_reply-panic (ok r) e h p = absurd (cc)
from_reply-panic (err x) e h p = unreadable-injective x panic (err-injective h ∙ is_panic-true e p)
  where
    unreadable-injective :
        (a b : RespError)
        → unreadable a ≡ unreadable b
        → ◌≡◌ {A = Result RespError Reply} (err a) (err b)
    unreadable-injective a b h = cc

receive-Guarded : (c : Conn) → Guarded c.incoming (receive c)
unfolding receive read_reply
receive-Guarded c = record {
  leaves = read_reply-suffix (suc (length c.incoming)) c.incoming;
  panics = λ e h p. (
    c.incoming,
    IsSuffix-refl c.incoming,
    from_reply-panic (Resp.read_reply (suc (length c.incoming)) c.incoming).0 e h p,
  );
}

refused-Guarded :
    (c : Conn) (e : ToolError) → is_panic e ≡ false → Guarded {A = Reply} c.incoming (err e, c)
refused-Guarded c e h = record {
  leaves = IsSuffix-refl c.incoming;
  panics = λ x k p. absurd (cc (ap is_panic (err-injective k), h, p));
}

pub do_cmd-Guarded : (args : List Bytes) (c : Conn) → Guarded c.incoming (do_cmd args c)
unfolding do_cmd
do_cmd-Guarded args c =
    if-Guarded c.incoming (c.takes_deadline c.sent) _ _
      (if-Guarded c.incoming (c.takes_write (write_cmd args)) _ _
        (receive-Guarded (record c { sent = c.sent ++ write_cmd args }))
        (refused-Guarded c write_failed refl))
      (refused-Guarded c deadline_refused refl)

of_reply-Guarded :
    {A : Type 0} (f : Reply → Result ToolError A) (t : Bytes) (r : Result ToolError Reply × Conn)
    → ((v : Reply) (e : ToolError) → f v ≡ err e → is_panic e ≡ false)
    → Guarded t r
    → Guarded t (of_reply f r)
of_reply-Guarded f t (ok v, c) k h = record {
  leaves = h.leaves;
  panics = λ e x p. absurd (cc (k v e x, p));
}
of_reply-Guarded f t (err x, c) k h = record {
  leaves = h.leaves;
  panics = λ e y p. h.panics e (ap err (err-injective y)) p;
}

get_reply-calm : (v : Reply) (e : ToolError) → get_reply v ≡ err e → is_panic e ≡ false
get_reply-calm nil e h = absurd (cc)
get_reply-calm (str s) e h = absurd (cc)
get_reply-calm (int n) e h = ap is_panic (sym (err-injective h))
get_reply-calm (arr rs) e h = ap is_panic (sym (err-injective h))

incr_reply-calm : (v : Reply) (e : ToolError) → incr_reply v ≡ err e → is_panic e ≡ false
incr_reply-calm (int n) e h = absurd (cc)
incr_reply-calm nil e h = ap is_panic (sym (err-injective h))
incr_reply-calm (str s) e h = ap is_panic (sym (err-injective h))
incr_reply-calm (arr rs) e h = ap is_panic (sym (err-injective h))

pub get-Guarded : (key : Bytes) (c : Conn) → Guarded c.incoming (get key c)
unfolding get
get-Guarded key c =
    of_reply-Guarded get_reply c.incoming _ get_reply-calm
      (do_cmd-Guarded (codes "GET" ∷ key ∷ []) c)

pub incr-Guarded : (key : Bytes) (c : Conn) → Guarded c.incoming (incr key c)
unfolding incr
incr-Guarded key c =
    of_reply-Guarded incr_reply c.incoming _ incr_reply-calm
      (do_cmd-Guarded (codes "INCR" ∷ key ∷ []) c)

identified-Panics :
    (t : Bytes) (r : Result ToolError Reply × Conn)
    → Guarded t r
    → IsSuffix (identified r).1.incoming t × ((identified r).0 ≡ none → Panics t)
unfolding identified
identified-Panics t (ok v, c) h = (h.leaves, λ x. absurd (cc))
identified-Panics t (err e, c) h = elim (Bool-cases (is_panic e)) [
  | inl p ↦ (h.leaves, λ x. h.panics e refl p)
  | inr p ↦ (h.leaves, rw p (λ x. absurd (cc)))
]

pub identify-Panics :
    (c : Conn)
    → IsSuffix (identify c).1.incoming c.incoming × ((identify c).0 ≡ none → Panics c.incoming)
unfolding identify
identify-Panics c =
    identified-Panics c.incoming (do_cmd (codes "INFO" ∷ []) c)
      (do_cmd-Guarded (codes "INFO" ∷ []) c)
