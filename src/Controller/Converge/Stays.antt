-- ===== src/Controller/Converge/Stays.antt =====
-- A tick of a set that has exactly one master.
use mathlib.Core.Path.{subst}
use redis_replication_contro.Base.{
  ◌≡◌, ◌≢◌, refl, sym, ap, ◌∙◌, inl, inr, Bool, true, some, List, [], ◌∷◌, arith, All, In,
  All-of_In, All-In, keep_if-In, In-keep_if,
}
use redis_replication_contro.Base.Bytes.{Bytes, bytes_eq}
use redis_replication_contro.Base.Bytes.Laws.{bytes_eq_refl, bytes_eq_iff}
use redis_replication_contro.Redis.Info.{is_master}
use redis_replication_contro.Kube.Pods.{Pod}
use redis_replication_contro.Config.{Config}
use redis_replication_contro.Controller.Select.{PodInfo}
use redis_replication_contro.Controller.Sets.{SetState}
use redis_replication_contro.Controller.World.{Trace, Env}
use redis_replication_contro.Controller.Failover.{redirect}
use redis_replication_contro.Controller.Reconcile.{
  masters_of, replicas_of, pick_master, with_masters, reconcile_set,
}
use redis_replication_contro.Controller.Reconcile.Promotions.{promotions}
use redis_replication_contro.Controller.Reconcile.Elects.{
  followers, pick_master-choice, followers-probe, followers-sync_labels,
}
use redis_replication_contro.Controller.Reconcile.Waits.{
  reached_by, probed_by, reconcile_set-promotes,
}
use redis_replication_contro.Controller.Converge.{Reports}
use redis_replication_contro.Controller.Converge.Roles.{master_after-probe}
use redis_replication_contro.Controller.Converge.Seen.{reached_by-IsSeen}
use redis_replication_contro.Controller.Converge.Among.{address_of}
use redis_replication_contro.Controller.Converge.Ends.{IsSoleMaster}

-- Every pod of the list has the name.
abbrev Named : Bytes → List PodInfo → Type 0
Named name = All (λ r. bytes_eq r.pod.name name ≡ true)

redirect_none :
    (cfg : Config) (env : Env) (name ip : Bytes) (rs : List PodInfo) (t : Trace)
    → Named name rs
    → (redirect cfg name ip rs env t).1 ≡ t
unfolding redirect
redirect_none cfg env name ip [] t h = refl
redirect_none cfg env name ip (r ∷ rs) t (h, hs) =
    ground (arith, redirect_none cfg env name ip rs t hs)

module _ (cfg : Config) (env : Env) (initial : Bytes → Bool) (pods : List Pod) (t : Trace)
    (b : PodInfo) where
  reached_roles :
      Reports initial env
      → IsSoleMaster cfg initial (reached_by cfg env pods t) b t
      → All
          (λ r. is_master (some r.info) ≡ bytes_eq r.pod.name b.pod.name)
          (reached_by cfg env pods t)
  reached_roles reports (m, only) = All-of_In _ (reached_by cfg env pods t) (λ r at.
      (All-In _ (reached_by cfg env pods t) r (reached_by-IsSeen cfg env initial pods t reports)
        at).role
      ∙ master_after-probe cfg env initial (address_of cfg r) pods t
      ∙ All-In _ (reached_by cfg env pods t) r only at)

  masters-Named :
      (rs : List PodInfo)
      → All (λ r. is_master (some r.info) ≡ bytes_eq r.pod.name b.pod.name) rs
      → Named b.pod.name (masters_of rs)
  masters-Named rs h = All-of_In _ (masters_of rs) (λ r m.
      let (at, up) = keep_if-In (λ pi. is_master (some pi.info)) rs r m in
      sym (All-In _ rs r h at) ∙ up)

  masters-b :
      (rs : List PodInfo)
      → All (λ r. is_master (some r.info) ≡ bytes_eq r.pod.name b.pod.name) rs
      → In b rs
      → In b (masters_of rs)
  masters-b rs h m =
      In-keep_if (λ pi. is_master (some pi.info)) rs b m
        (All-In _ rs b h m ∙ bytes_eq_refl b.pod.name)

module _ (cfg : Config) (env : Env) (pods : List Pod) (replicas : List PodInfo)
    (st : SetState) where
  pick_master-name :
      (strategy name : Bytes) (m : PodInfo) (ms : List PodInfo)
      → Named name (m ∷ ms)
      → (pick_master strategy m ms).pod.name ≡ name
  pick_master-name strategy name m ms h =
      (bytes_eq_iff _ _).0 (All-In _ (m ∷ ms) _ h (pick_master-choice strategy m ms).0)

  followers-with_masters_same :
      (name : Bytes) (masters : List PodInfo) (t : Trace)
      → Named name masters
      → masters ≢ []
      → followers (with_masters cfg pods replicas st masters env t).1 ≡ followers t
  unfolding with_masters
  followers-with_masters_same name [] t h some_up = absurd (some_up refl)
  followers-with_masters_same name (m ∷ []) t h some_up =
      followers-sync_labels cfg env m.pod.name pods t
  followers-with_masters_same name (m ∷ n ∷ ms) t h some_up =
      let b = pick_master cfg.initial_master_strategy m (n ∷ ms) in
      let same : Named b.pod.name (m ∷ n ∷ ms) =
        subst (λ x. Named x (m ∷ n ∷ ms))
          (sym (pick_master-name cfg.initial_master_strategy name m (n ∷ ms) h)) h in
      followers-sync_labels cfg env b.pod.name pods
        (redirect cfg b.pod.name b.pod.ip (m ∷ n ∷ ms) env t).1
      ∙ ap followers (redirect_none cfg env b.pod.name b.pod.ip (m ∷ n ∷ ms) t same)

-- Conditions: `INFO` reports the roles that the commands so far left, and exactly the pods named as the
-- reached pod `b` are masters among the reached ones. Then the tick sends neither `REPLICAOF host port` nor
-- `REPLICAOF NO ONE` to any pod, whichever calls fail.
pub reconcile_set-stays :
    (cfg : Config) (env : Env) (initial : Bytes → Bool) (pods : List Pod) (st : SetState)
    (t : Trace) (b : PodInfo)
    → Reports initial env
    → IsSoleMaster cfg initial (reached_by cfg env pods t) b t
    → let t' = (reconcile_set cfg pods st env t).1 in
      (followers t' ≡ followers t) × (promotions t' ≡ promotions t)
unfolding reconcile_set
reconcile_set-stays cfg env initial pods st t b reports sole =
    let reached = reached_by cfg env pods t in
    let roles = reached_roles cfg env initial pods t b reports sole in
    let here = masters-b cfg env initial pods t b reached roles sole.0 in
    let some_up : masters_of reached ≢ [] = λ e. subst (In b) e here in
    (
      followers-with_masters_same cfg env pods (replicas_of reached) st b.pod.name
            (masters_of reached) (probed_by cfg env pods t)
            (masters-Named cfg env initial pods t b reached roles) some_up
          ∙ followers-probe cfg env pods t,
      elim (reconcile_set-promotes cfg env pods st t) [
        | inl same ↦ same
        | inr c ↦ absurd (some_up c.1)
      ],
    )
