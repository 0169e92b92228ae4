-- ===== src/Controller/Sets/Sorted.antt =====
-- Sorting keeps the keys of the sets and their distinctness.
use mathlib.Core.Path.{subst}
use redis_replication_contro.Base.{
  ◌≡◌, sym, inl, inr, true, false, List, [], ◌∷◌, arith, All, In, Bool-cases,
}
use redis_replication_contro.Base.Sort.{sort_by, insert_by, insert_by_cases}
use redis_replication_contro.Controller.Sets.{
  SetKey, KeyMap, key_eq, lookup, keys, key_less, has_key,
}
use redis_replication_contro.Controller.Sets.Maps.{key_eq_iff}
use redis_replication_contro.Controller.Sets.Groups.{Distinct}

insert_by-In :
    (k : SetKey) (ks : List SetKey) (j : SetKey) → In j (k ∷ ks) → In j (insert_by key_less k ks)
unfolding insert_by
insert_by-In k [] j h = h
insert_by-In k (i ∷ ks) j h = elim (insert_by_cases key_less k i ks) [
  | inr (_, e) ↦ subst (In j) (sym e) h
  | inl (_, e) ↦ subst (In j) (sym e) (elim h [
    | inl x ↦ inr (insert_by-In k ks j (inl x))
    | inr (inl x) ↦ inl x
    | inr (inr x) ↦ inr (insert_by-In k ks j (inr x))
  ])
]

pub sort_by-In : (ks : List SetKey) (j : SetKey) → In j ks → In j (sort_by key_less ks)
unfolding sort_by
sort_by-In [] j m = absurd m
sort_by-In (k ∷ ks) j (inl x) = insert_by-In k (sort_by key_less ks) j (inl x)
sort_by-In (k ∷ ks) j (inr x) = insert_by-In k (sort_by key_less ks) j (inr (sort_by-In ks j x))

insert_by-All-ne :
    (i k : SetKey) (ks : List SetKey)
    → key_eq k i ≡ false
    → All (λ j. key_eq j i ≡ false) ks
    → All (λ j. key_eq j i ≡ false) (insert_by key_less k ks)
unfolding insert_by
insert_by-All-ne i k [] h hs = (h, tt)
insert_by-All-ne i k (j ∷ ks) h (hj, hs) = elim (insert_by_cases key_less k j ks) [
  | inr (_, e) ↦ subst (All (λ j. key_eq j i ≡ false)) (sym e) (h, (hj, hs))
  | inl (_, e) ↦ subst (All (λ j. key_eq j i ≡ false)) (sym e) (hj, insert_by-All-ne i k ks h hs)
]

sort_by-All-ne :
    (i : SetKey) (ks : List SetKey)
    → All (λ j. key_eq j i ≡ false) ks
    → All (λ j. key_eq j i ≡ false) (sort_by key_less ks)
unfolding sort_by
sort_by-All-ne i [] h = tt
sort_by-All-ne i (k ∷ ks) (h, hs) =
    insert_by-All-ne i k (sort_by key_less ks) h (sort_by-All-ne i ks hs)

insert_by-Distinct :
    (k : SetKey) (ks : List SetKey)
    → All (λ j. key_eq j k ≡ false) ks
    → Distinct ks
    → Distinct (insert_by key_less k ks)
unfolding insert_by
insert_by-Distinct k [] h d = (tt, tt)
insert_by-Distinct k (i ∷ ks) (h, hs) (hi, d) = elim (insert_by_cases key_less k i ks) [
  | inr (_, e) ↦ subst Distinct (sym e) ((h, hs), (hi, d))
  | inl (_, e) ↦ subst Distinct (sym e) (
    insert_by-All-ne i k ks (ground (arith, key_eq_iff i k, key_eq_iff k i)) hi,
    insert_by-Distinct k ks hs d,
  )
]

pub sort_by-Distinct : (ks : List SetKey) → Distinct ks → Distinct (sort_by key_less ks)
unfolding sort_by
sort_by-Distinct [] d = tt
sort_by-Distinct (k ∷ ks) (h, d) =
    insert_by-Distinct k (sort_by key_less ks) (sort_by-All-ne k ks h) (sort_by-Distinct ks d)

pub has_key-In : {V : Type 0} (m : KeyMap V) (k : SetKey) → has_key m k ≡ true → In k (keys m)
unfolding has_key lookup keys
has_key-In [] k h = absurd (cc)
has_key-In ((j, v) ∷ m) k h = elim (Bool-cases (key_eq j k)) [
  | inl e ↦ inl (sym ((key_eq_iff j k).0 e))
  | inr e ↦ inr (has_key-In m k (ground arith))
]
