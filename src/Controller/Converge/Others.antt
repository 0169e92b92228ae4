-- ===== src/Controller/Converge/Others.antt =====
-- What a tick of one set leaves as it is of the pods of the other sets.
use redis_replication_contro.Base.{
  ◌≡◌, refl, Bool, true, false, ◌&&◌, List, [], ◌∷◌, arith, All, All-In, All-of_In,
}
use redis_replication_contro.Base.Bytes.{Bytes, bytes_eq}
use redis_replication_contro.Kube.Pods.{Pod}
use redis_replication_contro.Config.{Config}
use redis_replication_contro.Controller.Select.{PodInfo}
use redis_replication_contro.Controller.Sets.{SetState}
use redis_replication_contro.Controller.World.{Trace, Env}
use redis_replication_contro.Controller.Failover.{address}
use redis_replication_contro.Controller.Reconcile.{is_probed, sync_labels, reconcile_set}
use redis_replication_contro.Controller.Converge.Labels.{role_patch}
use redis_replication_contro.Controller.Reconcile.Waits.{reached_by}
use redis_replication_contro.Controller.Converge.{
  Obeys, AllObey, Outages, master_after, label_after, Reports,
}
use redis_replication_contro.Controller.Converge.Roles.{
  is_told, master_after-probe, master_after-redirect, master_after-promote,
  master_after-sync_labels,
}
use redis_replication_contro.Controller.Converge.Labels.{
  label_after-probe, label_after-redirect, label_after-promote, label_after-patched,
}
use redis_replication_contro.Controller.Converge.Answers.{reached_by-AllObey}
use redis_replication_contro.Controller.Converge.Seen.{reached_by-IsSeen}
use redis_replication_contro.Controller.Converge.Among.{address_of}
use redis_replication_contro.Controller.Converge.Frame.{IsFrame, frame-reconcile_set}

module _ (cfg : Config) (env : Env) (initial : Bytes → Bool) (pods : List Pod) (a : Bytes) where
  -- The pod is not at the address.
  abbrev IsElsewhere : PodInfo → Type 0
  IsElsewhere r = bytes_eq (address_of cfg r) a ≡ false

  untold : (name : Bytes) (rs : List PodInfo) → All IsElsewhere rs → is_told cfg a name rs ≡ false
  unfolding is_told
  untold name [] h = refl
  untold name (r ∷ rs) (h, hs) = ground (arith, untold name rs hs)

  -- It does as it is told, besides.
  abbrev IsAside : PodInfo → Type 0
  IsAside r = IsElsewhere r × Obeys env (address_of cfg r)

  role_frame : IsFrame cfg env pods (λ t. master_after initial t a) IsAside
  role_frame = record {
    clocks = λ t. refl;
    redirects = λ name ip rs t h.
        let (away, own) = both rs h in
        let untouched = untold name rs away in
        let after = master_after-redirect cfg env initial a name ip rs t own in ground arith;
    promotes = λ b epoch rs t hb h.
        let (away, own) = both rs h in
        let untouched = untold b.pod.name rs away in
        let after = (master_after-promote cfg env initial a b epoch rs t hb.1 own).1 in
        let elsewhere = hb.0 in ground arith;
    labels = λ name t. master_after-sync_labels cfg env initial a name pods t;
  }
    where
      both : (rs : List PodInfo) → All IsAside rs → All IsElsewhere rs × AllObey cfg env rs
      both rs h = (
        All-of_In IsElsewhere rs (λ r m. (All-In IsAside rs r h m).0),
        All-of_In _ rs (λ r m. (All-In IsAside rs r h m).1),
      )

  -- A tick of a set leaves the role at every address at which the set has no pod that is probed.
  pub role-elsewhere :
      (st : SetState) (t : Trace)
      → Outages env
      → Reports initial env
      → All (λ p. is_probed p ≡ true → bytes_eq (address p.ip cfg.redis_port) a ≡ false) pods
      → master_after initial (reconcile_set cfg pods st env t).1 a ≡ master_after initial t a
  role-elsewhere st t cut reports h =
      let seen = reached_by-IsSeen cfg env initial pods t reports in
      frame-reconcile_set cfg env pods (λ t. master_after initial t a) IsAside role_frame st t
        (master_after-probe cfg env initial a pods t)
        (All-of_In IsAside (reached_by cfg env pods t) (λ r m.
          let s = All-In _ (reached_by cfg env pods t) r seen m in
          (
            All-In _ pods r.pod h s.member s.probed,
            All-In _ (reached_by cfg env pods t) r (reached_by-AllObey cfg env initial pods t cut)
                m,
          )))

module _ (cfg : Config) (env : Env) (initial : Bytes → Bytes → Bytes) (q : Pod) where
  -- The pod has another namespace or another name.
  abbrev IsOther : Pod → Type 0
  IsOther p = (bytes_eq p.namespace q.namespace && bytes_eq p.name q.name) ≡ false

  label_of : Trace → Bytes
  label_of t = label_after initial t q.namespace q.name

  label_of-sync_labels :
      (master : Bytes) (pods : List Pod) (t : Trace)
      → All IsOther pods
      → label_of (sync_labels master pods env t).1 ≡ label_of t
  unfolding sync_labels label_of
  label_of-sync_labels master [] t h = refl
  label_of-sync_labels master (p ∷ pods) t (h, hs) = ground (
    arith,
    label_of-sync_labels master pods t hs,
    label_of-sync_labels master pods (role_patch master p ∷ t) hs,
    label_after-patched env initial master q p t,
  )

  label_frame : (pods : List Pod) → All IsOther pods → IsFrame cfg env pods label_of (λ r. Unit)
  unfolding label_of
  label_frame pods h = record {
    clocks = λ t. refl;
    redirects =
        λ name ip rs t k. label_after-redirect cfg env initial q.namespace q.name name ip rs t;
    promotes =
        λ b epoch rs t hb k. label_after-promote cfg env initial q.namespace q.name b epoch rs t;
    labels = λ name t. label_of-sync_labels name pods t h;
  }

  -- A tick of a set leaves the labels of every pod that is not one of the set's.
  pub label-others :
      (pods : List Pod) (st : SetState) (t : Trace)
      → All IsOther pods
      → label_after initial (reconcile_set cfg pods st env t).1 q.namespace q.name
        ≡ label_after initial t q.namespace q.name
  unfolding label_of
  label-others pods st t h =
      frame-reconcile_set cfg env pods label_of (λ r. Unit) (label_frame pods h) st t
        (label_after-probe cfg env initial q.namespace q.name pods t)
        (All-of_In _ (reached_by cfg env pods t) (λ r m. tt))
