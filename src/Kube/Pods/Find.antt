-- ===== src/Kube/Pods/Find.antt =====
-- `FindByIP` of internal/kubernetes/pods.go: the search for the pod of an address.
use redis_replication_contro.Base.{
  ℕ, ◌≡◌, refl, ◌∙◌, ◌⊎◌, inl, inr, true, false, none, some, List, [], ◌∷◌, All, In, Bool-cases,
}
use redis_replication_contro.Base.Bytes.{Bytes, bytes_eq}
use redis_replication_contro.Kube.Pods.{Pod, find_by_ip}

find_by_ip_step :
    (p : Pod) (ps : List Pod) (c : ℕ) (ip : Bytes)
    → ((bytes_eq p.ip (c ∷ ip) ≡ true) × (find_by_ip (p ∷ ps) (c ∷ ip) ≡ some p))
      ⊎ ((bytes_eq p.ip (c ∷ ip) ≡ false) × (find_by_ip (p ∷ ps) (c ∷ ip) ≡ find_by_ip ps (c ∷ ip)))
unfolding find_by_ip
find_by_ip_step p ps c ip = elim (Bool-cases (bytes_eq p.ip (c ∷ ip))) [
  | inl e ↦ inl (e, rw e)
  | inr e ↦ inr (e, rw e)
]

-- The search for an address that is not empty finds a pod of the list that has this address, or no pod of
-- the list has it.
pub find_by_ip_cases :
    (ps : List Pod) (c : ℕ) (ip : Bytes)
    → ((p : Pod) × (find_by_ip ps (c ∷ ip) ≡ some p) × In p ps × (bytes_eq p.ip (c ∷ ip) ≡ true))
      ⊎ ((find_by_ip ps (c ∷ ip) ≡ none) × All (λ p. bytes_eq p.ip (c ∷ ip) ≡ false) ps)
find_by_ip_cases [] c ip = inr (unfold find_by_ip in refl, tt)
find_by_ip_cases (p ∷ ps) c ip = elim (find_by_ip_step p ps c ip) [
  | inl (e, found) ↦ inl (p, found, inl refl, e)
  | inr (e, on) ↦ elim (find_by_ip_cases ps c ip) [
    | inl (q, found, mem, h) ↦ inl (q, on ∙ found, inr mem, h)
    | inr (missed, h) ↦ inr (on ∙ missed, (e, h))
  ]
]
