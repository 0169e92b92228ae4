-- ===== src/Config/Namespaces/Laws.antt =====
-- The names that `parse_namespaces` returns.
use redis_replication_contro.Base.{
  ◌≡◌, ◌≢◌, ◌⊎◌, inl, inr, refl, sym, ap, Bool, false, not, ◌&&◌, ◌||◌, ◌∙◌, List, [], ◌∷◌, ◌++◌,
  append_assoc, append-nil, arith, Bool-cases, if◌then◌else◌,
}
use redis_replication_contro.Base.Bytes.{Bytes, bytes_eq, is_empty, trim_space, split}
use redis_replication_contro.Base.Bytes.Laws.{bytes_eq_iff}
use redis_replication_contro.Config.Namespaces.{seen_in, add_parts, parse_namespaces, or_fallback}

-- No name stands twice.
abbrev pub NoRepeats : List Bytes → Type 0
NoRepeats [] = Unit
NoRepeats (x ∷ xs) = (seen_in xs x ≡ false) × NoRepeats xs

-- The specification: of the trimmed parts the blank ones and those that came before are left out.
abbrev pub fresh_names : List Bytes → List Bytes → List Bytes
fresh_names seen [] = []
fresh_names seen (part ∷ parts) =
    if is_empty (trim_space part) || seen_in seen (trim_space part)
    then fresh_names seen parts
    else trim_space part ∷ fresh_names (trim_space part ∷ seen) parts

add_parts-fresh_names :
    (parts seen out : List Bytes) → add_parts seen out parts ≡ out ++ fresh_names seen parts
unfolding add_parts
add_parts-fresh_names [] seen out = sym (append-nil out)
add_parts-fresh_names (part ∷ parts) seen out = ground (
  arith,
  add_parts-fresh_names parts seen out,
  add_parts-fresh_names parts (trim_space part ∷ seen) (out ++ trim_space part ∷ []),
  append_assoc out (trim_space part ∷ []) (fresh_names (trim_space part ∷ seen) parts),
)

-- `n` is a part of the list, trimmed, and not blank.
abbrev pub is_written : List Bytes → Bytes → Bool
is_written [] n = false
is_written (part ∷ parts) n =
    (bytes_eq (trim_space part) n && not (is_empty n)) || is_written parts n

seen_in-fresh_names :
    (parts seen : List Bytes) (n : Bytes)
    → seen_in (fresh_names seen parts) n ≡ (is_written parts n && not (seen_in seen n))
unfolding seen_in
seen_in-fresh_names [] seen n = refl
seen_in-fresh_names (part ∷ parts) seen n = ground (
  arith,
  seen_in-fresh_names parts seen n,
  seen_in-fresh_names parts (trim_space part ∷ seen) n,
  bytes_eq_iff (trim_space part) n,
)

seen_in-head :
    (parts seen : List Bytes) (p : Bytes) → seen_in (fresh_names (p ∷ seen) parts) p ≡ false
seen_in-head parts seen p =
    seen_in-fresh_names parts (p ∷ seen) p ∙ (unfold seen_in in ground (arith, bytes_eq_iff p p))

fresh_names-NoRepeats : (parts seen : List Bytes) → NoRepeats (fresh_names seen parts)
fresh_names-NoRepeats [] seen = tt
fresh_names-NoRepeats (part ∷ parts) seen =
    elim (Bool-cases (is_empty (trim_space part) || seen_in seen (trim_space part))) [
      | inl e ↦ rw (e, fresh_names) (fresh_names-NoRepeats parts seen)
      | inr e ↦
          rw (e, fresh_names)
            (
              seen_in-head parts seen (trim_space part),
              fresh_names-NoRepeats parts (trim_space part ∷ seen),
            )
    ]

-- What `parse_namespaces` returns: the names as they are written, or the fallback alone.
parse_namespaces_cases :
    (csv fallback : Bytes)
    → parse_namespaces csv fallback ≡ or_fallback fallback (fresh_names [] (split csv b','))
unfolding parse_namespaces
parse_namespaces_cases csv fallback =
    ap (or_fallback fallback) (add_parts-fresh_names (split csv b',') [] [])

seen_in_nil : (n : Bytes) → seen_in [] n ≡ false
unfolding seen_in
seen_in_nil n = refl

no_names : (parts : List Bytes) (n : Bytes) → fresh_names [] parts ≡ [] → is_written parts n ≡ false
no_names parts n e =
    ground (arith, seen_in-fresh_names parts [] n, ap (λ l. seen_in l n) e, seen_in_nil n)

-- The list is never empty and has no name twice. It holds exactly the trimmed parts of the text that are
-- not blank; if there is none, it holds the fallback alone.
pub parse_namespaces_names :
    (csv fallback : Bytes)
    → (parse_namespaces csv fallback ≢ [])
      × NoRepeats (parse_namespaces csv fallback)
      × (((n : Bytes) → seen_in (parse_namespaces csv fallback) n ≡ is_written (split csv b',') n)
          ⊎ ((parse_namespaces csv fallback ≡ fallback ∷ [])
              × ((n : Bytes) → is_written (split csv b',') n ≡ false)))
unfolding or_fallback seen_in
parse_namespaces_names csv fallback = rw parse_namespaces_cases (
    facts (fresh_names [] (split csv b',')) (fresh_names-NoRepeats (split csv b',') [])
      (λ n. seen_in-fresh_names (split csv b',') [] n) (λ n e. no_names (split csv b',') n e))
  where
    facts :
        (l : List Bytes)
        → NoRepeats l
        → ((n : Bytes) → seen_in l n ≡ (is_written (split csv b',') n && not (seen_in [] n)))
        → ((n : Bytes) → l ≡ [] → is_written (split csv b',') n ≡ false)
        → (or_fallback fallback l ≢ [])
          × NoRepeats (or_fallback fallback l)
          × (((n : Bytes) → seen_in (or_fallback fallback l) n ≡ is_written (split csv b',') n)
              ⊎ ((or_fallback fallback l ≡ fallback ∷ [])
                  × ((n : Bytes) → is_written (split csv b',') n ≡ false)))
    facts [] h members none_left = (λ e. cc, (refl, tt), inr (refl, λ n. none_left n refl))
    facts (x ∷ xs) h members none_left = (λ e. cc, h, inl (λ n. ground (arith, members n)))
