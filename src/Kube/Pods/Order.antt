-- ===== src/Kube/Pods/Order.antt =====
-- The order in which `ListRedisPods` returns the pods.
use redis_replication_contro.Base.{
  ◌≢◌, ◌⊎◌, List, All, not, if◌then◌else◌, ◌≡◌, refl, Bool, true, false, [], ◌∷◌, arith,
}
use redis_replication_contro.Base.Int.{ℤ, pos, ◌<ℤ◌, negsuc, eqb_ℤ, ◌≤ℤ◌}
use redis_replication_contro.Base.Sort.{IsSorted}
use redis_replication_contro.Base.Bytes.{Bytes, bytes_eq, bytes_lt}
use redis_replication_contro.Base.Bytes.Laws.{
  bytes_eq_iff, bytes_lt_irrefl, bytes_lt_trans, bytes_lt_total,
}
use redis_replication_contro.Kube.Pods.{Pod, ordinal_less, pod_less}

-- An ordinal as `ordinal_from_name` makes them: -1 or a natural number.
abbrev pub IsOrdinal : ℤ → Type 0
IsOrdinal n = negsuc 0 ≤ℤ n

abbrev pub HasOrdinal : Pod → Type 0
HasOrdinal p = IsOrdinal p.ordinal

pub bytes_lt_asym : (s t : Bytes) → bytes_lt s t ≡ true → bytes_lt t s ≡ false
bytes_lt_asym s t h = ground (arith, bytes_lt_trans s t s, bytes_lt_irrefl s)

pub pod_less_asym :
    (p q : Pod) → HasOrdinal p → HasOrdinal q → pod_less p q ≡ true → pod_less q p ≡ false
unfolding pod_less ordinal_less
pod_less_asym p q hp hq h = ground (
  arith,
  bytes_eq_iff p.namespace q.namespace,
  bytes_eq_iff q.namespace p.namespace,
  bytes_lt_asym p.namespace q.namespace,
  bytes_lt_asym p.name q.name,
)

pub bytes_le_trans :
    (s t u : Bytes) → bytes_lt t s ≡ false → bytes_lt u t ≡ false → bytes_lt u s ≡ false
unfolding bytes_lt
bytes_le_trans [] t [] h k = refl
bytes_le_trans (a ∷ s) [] [] h k = cc
bytes_le_trans (a ∷ s) (b ∷ t) [] h k = cc
bytes_le_trans [] t (c ∷ u) h k = refl
bytes_le_trans (a ∷ s) [] (c ∷ u) h k = cc
bytes_le_trans (a ∷ s) (b ∷ t) (c ∷ u) h k = ground (arith, bytes_le_trans s t u)

-- The order that the pods are to have. A known ordinal stands before a higher one and before an unknown,
-- that is negative, one.
abbrev pub OrdinalBefore : ℤ → ℤ → Type 0
OrdinalBefore a b = (pos 0 ≤ℤ a) × ((b <ℤ pos 0) ⊎ (a <ℤ b))

-- By namespace, then ordinal, then name.
abbrev pub Before : Pod → Pod → Type 0
Before p q =
    (bytes_lt p.namespace q.namespace ≡ true)
    ⊎ ((p.namespace ≡ q.namespace)
        × (OrdinalBefore p.ordinal q.ordinal
            ⊎ ((p.ordinal ≡ q.ordinal) × (bytes_lt q.name p.name ≡ false))))

-- Each pod stands before all later ones.
abbrev pub AreOrdered : List Pod → Type 0
AreOrdered [] = Unit
AreOrdered (p ∷ ps) = All (Before p) ps × AreOrdered ps

not_less-ordinals :
    (a b : ℤ) → IsOrdinal a → IsOrdinal b → a ≢ b → ordinal_less b a ≡ false → OrdinalBefore a b
unfolding ordinal_less
not_less-ordinals a b ha hb ne h = ground arith

not_less-Before : (p q : Pod) → HasOrdinal p → HasOrdinal q → pod_less q p ≡ false → Before p q
unfolding pod_less
not_less-Before p q hp hq h = ground (
  arith,
  bytes_eq_iff q.namespace p.namespace,
  bytes_lt_total q.namespace p.namespace,
  not_less-ordinals p.ordinal q.ordinal hp hq,
)

sorted_tail :
    (p : Pod) (ps : List Pod)
    → HasOrdinal p
    → All HasOrdinal ps
    → All (λ q. pod_less q p ≡ false) ps
    → All (Before p) ps
sorted_tail p [] hp h k = tt
sorted_tail p (q ∷ ps) hp (h, hs) (k, ks) = (not_less-Before p q hp h k, sorted_tail p ps hp hs ks)

pub sorted-AreOrdered : (ps : List Pod) → All HasOrdinal ps → IsSorted pod_less ps → AreOrdered ps
sorted-AreOrdered [] h k = tt
sorted-AreOrdered (p ∷ ps) (h, hs) (k, ks) = (sorted_tail p ps h hs k, sorted-AreOrdered ps hs ks)

-- Ordinals, then names, within one namespace.
within_less : Pod → Pod → Bool
within_less p q =
    if not (eqb_ℤ p.ordinal q.ordinal)
    then ordinal_less p.ordinal q.ordinal
    else bytes_lt p.name q.name

within_less_trans :
    (p q r : Pod)
    → HasOrdinal p
    → HasOrdinal q
    → HasOrdinal r
    → within_less q p ≡ false
    → within_less r q ≡ false
    → within_less r p ≡ false
unfolding within_less ordinal_less
within_less_trans p q r hp hq hr h k = ground (arith, bytes_le_trans p.name q.name r.name)

pod_less-within :
    (p q : Pod)
    → pod_less p q ≡ (
        if bytes_eq p.namespace q.namespace
        then within_less p q
        else bytes_lt p.namespace q.namespace)
unfolding pod_less within_less
pod_less-within p q = ground arith

pub pod_less_trans :
    (p q r : Pod)
    → HasOrdinal p
    → HasOrdinal q
    → HasOrdinal r
    → pod_less q p ≡ false
    → pod_less r q ≡ false
    → pod_less r p ≡ false
pod_less_trans p q r hp hq hr h k = ground (
  arith,
  pod_less-within q p,
  pod_less-within r q,
  pod_less-within r p,
  bytes_eq_iff q.namespace p.namespace,
  bytes_eq_iff r.namespace q.namespace,
  bytes_eq_iff r.namespace p.namespace,
  bytes_le_trans p.namespace q.namespace r.namespace,
  bytes_lt_total q.namespace p.namespace,
  bytes_lt_total r.namespace q.namespace,
  bytes_lt_irrefl p.namespace,
  within_less_trans p q r,
)
