-- ===== src/Tools/FailoverProbe/Scan.antt =====
-- `scanKeys` of tools/failover-probe/main.go. Every round of its loop reads a reply, which takes at least
-- one byte of what will arrive: the fuel counts rounds.
pub mod Ends
use redis_replication_contro.Base.{
  ℕ, zero, suc, ◌+◌, Bool, true, false, Option, none, some, List, [], ◌∷◌, ◌++◌, leb, if◌then◌else◌,
  length,
}
use redis_replication_contro.Base.Result.{Result, ok, err}
use redis_replication_contro.Base.Bytes.{Bytes, codes, bytes_eq}
use redis_replication_contro.Redis.Resp.{Reply, nil, str, int, arr, Replies, end, item}
use redis_replication_contro.Redis.Info.{to_string}
use redis_replication_contro.Tools.FailoverProbe.Client.{Conn, ToolError, is_panic, do_cmd}

-- The inner loop: the keys so far, and whether the limit is reached.
pub collect : ℕ → Replies → List Bytes → List Bytes × Bool
collect limit end keys = (keys, false)
collect limit (item (str s) rest) keys =
    let on = collect limit rest (keys ++ s ∷ []) in
    if leb limit (length (keys ++ s ∷ [])) then (keys ++ s ∷ [], true) else on
collect limit (item nil rest) keys = collect limit rest keys
collect limit (item (int n) rest) keys = collect limit rest keys
collect limit (item (arr rs) rest) keys = collect limit rest keys

-- The second element, if it is an array.
pub collect_page : ℕ → Reply → List Bytes → List Bytes × Bool
unfolding collect
collect_page limit (arr rs) keys = collect limit rs keys
collect_page limit nil keys = (keys, false)
collect_page limit (str s) keys = (keys, false)
collect_page limit (int n) keys = (keys, false)

-- The cursor (`""` if it is no string) and the page of a reply, `none` if it is no array of two.
abbrev pub page_of : Reply → Option (Bytes × Reply)
page_of (arr (item a (item b rest))) = some (to_string a, b)
page_of (arr (item a end)) = none
page_of (arr end) = none
page_of nil = none
page_of (str s) = none
page_of (int n) = none

-- The keys that were found; or a reply panicked; or there was a lack of fuel.
pub data Scanned : Type 0 where
  found : List Bytes → Scanned
  crashed no_fuel : Scanned

abbrev pub Scan : Type 0
Scan = Bytes → List Bytes → Conn → Scanned × Conn

pub next_page : Scan → Bytes → List Bytes × Bool → Conn → Scanned × Conn
next_page scan cursor (keys, true) c = (found keys, c)
next_page scan cursor (keys, false) c =
    let on = scan cursor keys c in if bytes_eq cursor (codes "0") then (found keys, c) else on

pub scan_page : Scan → ℕ → List Bytes → Option (Bytes × Reply) → Conn → Scanned × Conn
unfolding next_page
scan_page scan limit keys none c = (found keys, c)
scan_page scan limit keys (some (cursor, page)) c =
    next_page scan cursor (collect_page limit page keys) c

pub scan_reply : Scan → ℕ → List Bytes → Result ToolError Reply × Conn → Scanned × Conn
unfolding scan_page
scan_reply scan limit keys (err e, c) = (if is_panic e then crashed else found keys, c)
scan_reply scan limit keys (ok r, c) = scan_page scan limit keys (page_of r) c

pub scan_from : ℕ → Bytes → ℕ → Scan
unfolding scan_reply
scan_from zero prefix limit cursor keys c = (no_fuel, c)
scan_from (suc f) prefix limit cursor keys c = scan_reply (scan_from f prefix limit) limit keys (
    do_cmd
      (codes "SCAN"
        ∷ cursor
        ∷ codes "MATCH"
        ∷ (prefix ++ codes ":*")
        ∷ codes "COUNT"
        ∷ codes "50"
        ∷ [])
      c)

pub scan_keys : Bytes → ℕ → Conn → Scanned × Conn
unfolding scan_from
scan_keys prefix limit c = scan_from (suc (length c.incoming)) prefix limit (codes "0") [] c
