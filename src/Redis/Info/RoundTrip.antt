-- ===== src/Redis/Info/RoundTrip.antt =====
-- `parse_replication_info` on the text that a server writes: lines `key:value` ended by CRLF.
use mathlib.Core.Path.{subst, sym}
use mathlib.Core.List.{foldl}
use redis_replication_contro.Base.{
  suc, ◌≡◌, ◌≢◌, refl, ◌∙◌, ap, List, [], ◌∷◌, ◌++◌, arith, All, All-append, ℕ,
}
use redis_replication_contro.Base.Int.{ℤ, IsInt64, pos, negsuc}
use redis_replication_contro.Base.Bytes.{Bytes, codes, bytes_eq, split, trim_space, has_prefix}
use redis_replication_contro.Base.Bytes.Trim.{IsGraph, trim_space_graph, trim_space_cr}
use redis_replication_contro.Base.Bytes.Split.{Lacks, split-append, cut-append}
use redis_replication_contro.Strconv.{parse_int, format_nat, format_int}
use redis_replication_contro.Strconv.RoundTrip.{IsDigit, format_nat-All, parse_int-format_int}
use redis_replication_contro.Redis.Resp.{str}
use redis_replication_contro.Redis.Info.{
  ReplicationInfo, empty_info, to_int64, set_field, parse_trimmed, parse_line,
  parse_replication_info,
}

-- A line of the INFO text, as (key, value).
abbrev pub Entry : Type 0
Entry = Bytes × Bytes

-- A key begins with a printable character that is not `#`, and has no `:`; key and value are printable
-- ASCII without spaces.
pub record IsEntry (e : Entry) : Type 0 where
  pub first : ℕ
  pub others : Bytes
  pub key : e.0 ≡ first ∷ others
  pub first_ne : first ≢ b'#'
  pub no_colon : Lacks b':' (first ∷ others)
  pub graph_key : All IsGraph (first ∷ others)
  pub graph_value : All IsGraph e.1

abbrev pub line_of : Entry → Bytes
line_of e = e.0 ++ (b':' ∷ e.1)

-- The text of a list of entries.
abbrev pub info_text : List Entry → Bytes
info_text [] = []
info_text (e ∷ es) = (line_of e ++ 13 ∷ []) ++ (10 ∷ info_text es)

graph-Lacks : (s : Bytes) → All IsGraph s → Lacks 10 s
graph-Lacks [] g = tt
graph-Lacks (a ∷ s) (ga, gs) = (ground arith, graph-Lacks s gs)

line-graph :
    (a : ℕ) (k v : Bytes)
    → All IsGraph (a ∷ k)
    → All IsGraph v
    → All IsGraph ((a ∷ k) ++ (b':' ∷ v))
line-graph a k v g h = All-append IsGraph (a ∷ k) (b':' ∷ v) g ((omega arith, omega arith), h)

parse_trimmed_entry :
    (info : ReplicationInfo) (a : ℕ) (k v : Bytes)
    → a ≢ b'#'
    → Lacks b':' (a ∷ k)
    → parse_trimmed info ((a ∷ k) ++ (b':' ∷ v)) ≡ set_field info (a ∷ k) v
unfolding parse_trimmed has_prefix
parse_trimmed_entry info a k v h no_colon = ground (arith, cut-append b':' (a ∷ k) v no_colon)

parse_line_parts :
    (info : ReplicationInfo) (a : ℕ) (k v : Bytes)
    → a ≢ b'#'
    → Lacks b':' (a ∷ k)
    → All IsGraph (a ∷ k)
    → All IsGraph v
    → parse_line info (((a ∷ k) ++ (b':' ∷ v)) ++ 13 ∷ []) ≡ set_field info (a ∷ k) v
parse_line_parts info a k v first no_colon gk gv =
    unfold parse_line in
    ap (parse_trimmed info) (trim_space_cr a (k ++ (b':' ∷ v)) (line-graph a k v gk gv))
    ∙ parse_trimmed_entry info a k v first no_colon

parse_line_entry :
    (info : ReplicationInfo) (e : Entry)
    → IsEntry e
    → parse_line info (line_of e ++ 13 ∷ []) ≡ set_field info e.0 e.1
parse_line_entry info e h =
    subst (λ k. parse_line info ((k ++ (b':' ∷ e.1)) ++ 13 ∷ []) ≡ set_field info k e.1) (sym h.key)
      (parse_line_parts info h.first h.others e.1 h.first_ne h.no_colon h.graph_key h.graph_value)

line-Lacks : (e : Entry) → IsEntry e → Lacks 10 (line_of e ++ 13 ∷ [])
line-Lacks e h =
    subst (λ k. Lacks 10 ((k ++ (b':' ∷ e.1)) ++ 13 ∷ [])) (sym h.key)
      (All-append (λ c. c ≢ 10) ((h.first ∷ h.others) ++ (b':' ∷ e.1)) (13 ∷ [])
        (graph-Lacks ((h.first ∷ h.others) ++ (b':' ∷ e.1))
          (line-graph h.first h.others e.1 h.graph_key h.graph_value))
        (omega arith))

last_line : (info : ReplicationInfo) → foldl parse_line info (split [] 10) ≡ info
unfolding split parse_line trim_space
last_line info = refl

-- Reading the text of a list of entries sets the entries' fields one after the other, so the last entry
-- of a key counts. Condition: each entry is well formed (`IsEntry`).
pub fold-info_text :
    (es : List Entry) (info : ReplicationInfo)
    → All IsEntry es
    → foldl parse_line info (split (info_text es) 10)
      ≡ foldl (λ (i : ReplicationInfo) (e : Entry). set_field i e.0 e.1) info es
fold-info_text [] info h = last_line info
fold-info_text (e ∷ es) info (he, hes) =
    ap (foldl parse_line info)
      (split-append 10 (line_of e ++ 13 ∷ []) (info_text es) (line-Lacks e he))
    ∙ ap (λ i. foldl parse_line i (split (info_text es) 10)) (parse_line_entry info e he)
    ∙ fold-info_text es (set_field info e.0 e.1) hes

digits-graph : (s : Bytes) → All IsDigit s → All IsGraph s
digits-graph [] h = tt
digits-graph (c ∷ s) (h, hs) = ((omega arith, omega arith), digits-graph s hs)

format_int-graph : (z : ℤ) → All IsGraph (format_int z)
unfolding format_int
format_int-graph (pos n) = digits-graph (format_nat n) (format_nat-All n)
format_int-graph (negsuc n) =
    ((omega arith, omega arith), digits-graph (format_nat (suc n)) (format_nat-All (suc n)))

-- A printed 64-bit number is read back.
pub to_int64-format_int : (z : ℤ) → IsInt64 z → to_int64 (str (format_int z)) ≡ z
unfolding to_int64
to_int64-format_int z h =
    ap (λ s. (parse_int s).0) (trim_space_graph (format_int z) (format_int-graph z))
    ∙ ap (λ r. r.0) (parse_int-format_int z h)

-- What a server reports about its replication, line by line.
abbrev pub entries_of : ReplicationInfo → List Entry
entries_of r =
    (codes "role", r.role)
    ∷ (codes "connected_slaves", format_int r.connected_slaves)
    ∷ (codes "master_host", r.master_host)
    ∷ (codes "master_port", format_int r.master_port)
    ∷ (codes "master_link_status", r.master_link_status)
    ∷ (codes "master_repl_offset", format_int r.master_repl_offset)
    ∷ (codes "slave_repl_offset", format_int r.slave_repl_offset)
    ∷ []

-- The texts are printable ASCII without spaces, the numbers 64-bit integers.
pub record IsPrintable (r : ReplicationInfo) : Type 0 where
  pub role : All IsGraph r.role
  pub master_host : All IsGraph r.master_host
  pub master_link_status : All IsGraph r.master_link_status
  pub connected_slaves : IsInt64 r.connected_slaves
  pub master_port : IsInt64 r.master_port
  pub master_repl_offset : IsInt64 r.master_repl_offset
  pub slave_repl_offset : IsInt64 r.slave_repl_offset

entry :
    (a : ℕ) (k v : Bytes)
    → a ≢ b'#'
    → Lacks b':' (a ∷ k)
    → All IsGraph (a ∷ k)
    → All IsGraph v
    → IsEntry (a ∷ k, v)
entry a k v h c gk gv = record {
  first = a;
  others = k;
  key = refl;
  first_ne = h;
  no_colon = c;
  graph_key = gk;
  graph_value = gv;
}

entries-All : (r : ReplicationInfo) → IsPrintable r → All IsEntry (entries_of r)
entries-All r h = (
  entry _ _ _ (omega arith) (omega arith) (omega arith) h.role,
  (
    entry _ _ _ (omega arith) (omega arith) (omega arith) (format_int-graph r.connected_slaves),
    (
      entry _ _ _ (omega arith) (omega arith) (omega arith) h.master_host,
      (
        entry _ _ _ (omega arith) (omega arith) (omega arith) (format_int-graph r.master_port),
        (
          entry _ _ _ (omega arith) (omega arith) (omega arith) h.master_link_status,
          (
            entry _ _ _ (omega arith) (omega arith) (omega arith)
                (format_int-graph r.master_repl_offset),
            (
              entry _ _ _ (omega arith) (omega arith) (omega arith)
                  (format_int-graph r.slave_repl_offset),
              tt,
            ),
          ),
        ),
      ),
    ),
  ),
)

set_fields :
    (r : ReplicationInfo)
    → IsPrintable r
    → foldl (λ (i : ReplicationInfo) (e : Entry). set_field i e.0 e.1) empty_info (entries_of r) ≡ r
unfolding set_field bytes_eq
set_fields r h = λ i. record {
  role = r.role;
  connected_slaves = to_int64-format_int r.connected_slaves h.connected_slaves i;
  master_host = r.master_host;
  master_port = to_int64-format_int r.master_port h.master_port i;
  master_link_status = r.master_link_status;
  master_repl_offset = to_int64-format_int r.master_repl_offset h.master_repl_offset i;
  slave_repl_offset = to_int64-format_int r.slave_repl_offset h.slave_repl_offset i;
}

-- From the INFO text of a node the parser rebuilds the node's report, field for field. Conditions: the
-- texts are printable ASCII without spaces, and the numbers are 64-bit integers.
pub parse-info_text :
    (r : ReplicationInfo) → IsPrintable r → parse_replication_info (info_text (entries_of r)) ≡ r
unfolding parse_replication_info
parse-info_text r h = fold-info_text (entries_of r) empty_info (entries-All r h) ∙ set_fields r h
