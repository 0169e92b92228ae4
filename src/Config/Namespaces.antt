-- ===== src/Config/Namespaces.antt =====
-- `parseNamespaces`: the comma-separated list, trimmed and without duplicates, in its order.
pub mod Laws
use redis_replication_contro.Base.{Bool, true, false, ◌||◌, List, [], ◌∷◌, ◌++◌, if◌then◌else◌}
use redis_replication_contro.Base.Bytes.{Bytes, bytes_eq, is_empty, trim_space, split}

-- The keys of the map `seen` that are true.
unfoldable pub seen_in : List Bytes → Bytes → Bool
seen_in [] p = false
seen_in (s ∷ seen) p = bytes_eq s p || seen_in seen p

-- The loop over the parts.
unfoldable pub add_parts : List Bytes → List Bytes → List Bytes → List Bytes
unfolding seen_in
add_parts seen out [] = out
add_parts seen out (part ∷ parts) =
    let p = trim_space part in
    let skip = add_parts seen out parts in
    let add = add_parts (p ∷ seen) (out ++ p ∷ []) parts in
    if is_empty p || seen_in seen p then skip else add

or_fallback : Bytes → List Bytes → List Bytes
or_fallback fallback [] = fallback ∷ []
or_fallback fallback (p ∷ out) = p ∷ out

unfoldable pub parse_namespaces : Bytes → Bytes → List Bytes
unfolding add_parts or_fallback
parse_namespaces csv fallback = or_fallback fallback (add_parts [] [] (split csv b','))
