-- ===== src/Controller/Converge/Among.antt =====
-- Which of the reached pods is a master behind a redirection or a promotion.
use mathlib.Core.Path.{subst}
use redis_replication_contro.Base.{
  ◌≡◌, refl, sym, ap, ◌∙◌, inl, inr, Bool, true, false, not, ◌&&◌, ◌||◌, some, List, [], ◌∷◌, arith,
  All, In, All-In, All-of_In, Bool-cases, keep_if, keep_if-In, In-keep_if, keep_if-nil,
}
use redis_replication_contro.Base.Bytes.{Bytes, bytes_eq}
use redis_replication_contro.Base.Bytes.Laws.{bytes_eq_refl, bytes_eq_iff}
use redis_replication_contro.Redis.Info.{is_master}
use redis_replication_contro.Kube.Pods.{Pod}
use redis_replication_contro.Config.{Config}
use redis_replication_contro.Controller.Select.{PodInfo}
use redis_replication_contro.Controller.Failover.{address}
use redis_replication_contro.Controller.Reconcile.{masters_of, replicas_of}
use redis_replication_contro.Controller.Converge.{OneAddressEach}
use redis_replication_contro.Controller.Converge.Roles.{is_told}
use redis_replication_contro.Controller.Converge.Seen.{IsSeen}

bytes_eq_sym : (a b : Bytes) → bytes_eq a b ≡ true → bytes_eq b a ≡ true
bytes_eq_sym a b e = (bytes_eq_iff b a).1 (sym ((bytes_eq_iff a b).0 e))

module _ (cfg : Config) where
  abbrev pub address_of : PodInfo → Bytes
  address_of r = address r.pod.ip cfg.redis_port

  -- The address `a` and the name `n` belong to the same pods of the list.
  abbrev Match : Bytes → Bytes → List PodInfo → Type 0
  Match a n = All (λ r. bytes_eq (address_of r) a ≡ bytes_eq r.pod.name n)

  is_told-kept : (a n : Bytes) (rs : List PodInfo) → Match a n rs → is_told cfg a n rs ≡ false
  unfolding is_told
  is_told-kept a n [] h = refl
  is_told-kept a n (r ∷ rs) (h, hs) = ground (arith, is_told-kept a n rs hs)

  is_told-other :
      (s : PodInfo) (name : Bytes) (rs : List PodInfo)
      → bytes_eq s.pod.name name ≡ false
      → In s rs
      → is_told cfg (address_of s) name rs ≡ true
  unfolding is_told
  is_told-other s name [] ne m = absurd m
  is_told-other s name (r ∷ rs) ne (inl e) =
      subst (λ x. is_told cfg (address_of s) name (x ∷ rs) ≡ true) e
        (ground (arith, bytes_eq_refl (address_of s)))
  is_told-other s name (r ∷ rs) ne (inr m) = ground (arith, is_told-other s name rs ne m)

  -- A pod of the list is told to follow exactly if it has another name.
  is_told-In :
      (s : PodInfo) (name : Bytes) (rs : List PodInfo)
      → In s rs
      → Match (address_of s) s.pod.name rs
      → is_told cfg (address_of s) name rs ≡ not (bytes_eq s.pod.name name)
  is_told-In s name rs m h = elim (Bool-cases (bytes_eq s.pod.name name)) [
    | inl e ↦
        subst (λ n. is_told cfg (address_of s) n rs ≡ false) ((bytes_eq_iff s.pod.name name).0 e)
          (is_told-kept (address_of s) s.pod.name rs h)
        ∙ rw e refl
    | inr e ↦ is_told-other s name rs e m ∙ rw e refl
  ]

module _ (cfg : Config) (pods : List Pod) (role_at : Bytes → Bool) (reached : List PodInfo) where
  -- What the probes and the addresses of the set's pods are taken to be.
  pub record Found : Type 0 where
    pub seen : All (IsSeen cfg pods role_at) reached
    pub one : OneAddressEach cfg pods

  Found-IsSeen : Found → (s : PodInfo) → In s reached → IsSeen cfg pods role_at s
  Found-IsSeen f s m = All-In (IsSeen cfg pods role_at) reached s f.seen m

  same_pod :
      Found
      → (r s : PodInfo) → In r reached
      → In s reached
      → bytes_eq (address_of cfg r) (address_of cfg s) ≡ bytes_eq r.pod.name s.pod.name
  same_pod f r s m n =
      let x = Found-IsSeen f r m in
      let y = Found-IsSeen f s n in f.one.same r.pod s.pod x.member y.member x.probed y.probed

  kept-Match :
      Found
      → (p : PodInfo → Bool) (s : PodInfo) → In s reached
      → Match cfg (address_of cfg s) s.pod.name (keep_if p reached)
  kept-Match f p s m =
      All-of_In _ (keep_if p reached) (λ r n. same_pod f r s (keep_if-In p reached r n).0 m)

  same_role :
      Found
      → (b s : PodInfo) → In b reached
      → In s reached
      → bytes_eq s.pod.name b.pod.name ≡ true
      → role_at (address_of cfg s) ≡ role_at (address_of cfg b)
  same_role f b s m n e = ap role_at ((bytes_eq_iff _ _).0 (same_pod f s b n m ∙ e))

  -- Behind a redirection of the masters to one of them.
  pub redirected_role :
      Found
      → (b s : PodInfo) → In b (masters_of reached)
      → In s reached
      → (not (is_told cfg (address_of cfg s) b.pod.name (masters_of reached))
          && role_at (address_of cfg s))
        ≡ bytes_eq s.pod.name b.pod.name
  redirected_role f b s m n =
      let (mb, eb) = keep_if-In _ reached b m in
      let up = (Found-IsSeen f b mb).role in
      let own = (Found-IsSeen f s n).role in
      elim (Bool-cases (role_at (address_of cfg s))) [
        | inl e ↦
            let told =
              is_told-In cfg s b.pod.name (masters_of reached) (In-keep_if _ reached s n (own ∙ e))
                (kept-Match f _ s n) in
            ground arith
        | inr e ↦ let agree = same_role f b s mb n in ground arith
      ]

  -- Behind the promotion of `b` among replicas.
  pub promoted_role :
      Found
      → (b s : PodInfo) → masters_of reached ≡ []
      → In b (replicas_of reached)
      → In s reached
      → (not (is_told cfg (address_of cfg s) b.pod.name (replicas_of reached))
          && (bytes_eq (address_of cfg b) (address_of cfg s) || role_at (address_of cfg s)))
        ≡ bytes_eq s.pod.name b.pod.name
  promoted_role f b s none_up m n =
      let own = (Found-IsSeen f s n).role in
      let down : is_master (some s.info) ≡ false =
        All-In _ reached s (keep_if-nil _ reached none_up) n in
      let mb = (keep_if-In _ reached b m).0 in
      let told =
        is_told-In cfg s b.pod.name (replicas_of reached) (In-keep_if _ reached s n (ap not down))
          (kept-Match f _ s n) in
      let here = same_pod f s b n mb in
      let back = bytes_eq_sym (address_of cfg s) (address_of cfg b) in ground arith
