-- ===== src/Controller/Converge/Answers.antt =====
-- The probes of a set whose running pods answer.
use mathlib.Core.Path.{subst}
use redis_replication_contro.Base.{
  All, All-of_In, Bool-cases, false, ◌≡◌, ◌≢◌, ap, ◌∙◌, refl, sym, inl, inr, Bool, true, Option,
  none, some, List, [], ◌∷◌, arith, In, All-In, In-keep_if,
}
use redis_replication_contro.Base.Bytes.{Bytes}
use redis_replication_contro.Redis.Info.{ReplicationInfo, is_master}
use redis_replication_contro.Kube.Pods.{Pod}
use redis_replication_contro.Config.{Config}
use redis_replication_contro.Controller.Select.{PodInfo}
use redis_replication_contro.Controller.World.{dial, Trace, Env}
use redis_replication_contro.Controller.Failover.{address}
use redis_replication_contro.Controller.Reconcile.{
  is_probed, probe, probe_pod, add_report, masters_of, probe,
}
use redis_replication_contro.Controller.Reconcile.Waits.{reached_by}
use redis_replication_contro.Controller.Converge.Seen.{probe_step, reached_by-IsSeen}
use redis_replication_contro.Controller.Converge.{
  Obeys, AllObey, Outages, is_up, master_after, Reports,
}
use redis_replication_contro.Controller.Converge.Roles.{master_after-probe}

pub In-not_nil : {A : Type 0} (a : A) (l : List A) → In a l → l ≢ []
In-not_nil a l m e = subst (In a) e m

-- Every pod of the list that is up answers `INFO` at every moment.
pub record AnswerAlways (cfg : Config) (env : Env) (cut : Outages env) (pods : List Pod)
    : Type 0 where
  pub answer :
      (p : Pod) (t : Trace)
      → In p pods
      → is_up env cut cfg p ≡ true
      → (r : ReplicationInfo) × (env.report t (address p.ip cfg.redis_port) ≡ some r)

module _ (cfg : Config) (env : Env) (initial : Bytes → Bool) where
  probe_pod-some :
      (p : Pod) (t : Trace) (r : ReplicationInfo)
      → Obeys env (address p.ip cfg.redis_port)
      → env.report (dial (address p.ip cfg.redis_port) ∷ t) (address p.ip cfg.redis_port) ≡ some r
      → (probe_pod cfg p env t).0 ≡ some r
  unfolding probe_pod
  probe_pod-some p t r own e = ground (arith, own.dials t)

  -- The pod is among the reached ones.
  abbrev pub IsReached : Pod → List PodInfo → Type 0
  IsReached p rs = (r : PodInfo) × In r rs × (r.pod ≡ p)

  later-IsReached :
      (p q : Pod) (o : Option ReplicationInfo) (rs : List PodInfo)
      → IsReached p rs
      → IsReached p (add_report q o rs)
  later-IsReached p q none rs h = h
  later-IsReached p q (some r) rs (s, m, e) = (s, inr m, e)

  first-IsReached :
      (p : Pod) (o : Option ReplicationInfo) (r : ReplicationInfo) (rs : List PodInfo)
      → o ≡ some r
      → IsReached p (add_report p o rs)
  first-IsReached p none r rs e = absurd (cc)
  first-IsReached p (some x) r rs e = (record { pod = p; info = x }, inl refl, refl)

  up-Obeys :
      (p : Pod) (cut : Outages env)
      → is_up env cut cfg p ≡ true
      → Obeys env (address p.ip cfg.redis_port)
  up-Obeys p cut h = cut.obeys (address p.ip cfg.redis_port) (ground arith)

  off_cut : (p : Pod) (cut : Outages env) → is_probed p ≡ false → is_up env cut cfg p ≡ true → ⊥
  off_cut p cut off h = ground arith

  -- A pod that is up and answers is reached.
  pub answers-IsReached :
      (pods whole : List Pod) (p : Pod) (t : Trace) (cut : Outages env)
      → AnswerAlways cfg env cut whole
      → In p whole
      → is_up env cut cfg p ≡ true
      → In p pods
      → IsReached p (reached_by cfg env pods t)
  answers-IsReached [] whole p t cut ans w h m = absurd m
  answers-IsReached (q ∷ pods) whole p t cut ans w h (inl e) =
      elim (probe_step cfg env initial q pods t) [
        | inl (off, on) ↦ absurd (off_cut p cut (subst (λ x. is_probed x ≡ false) (sym e) off) h)
        | inr (up, on) ↦
            let (r, found) = ans.answer p (dial (address p.ip cfg.redis_port) ∷ t) w h in
            let asked = probe_pod-some p t r (up-Obeys p cut h) found in
            subst (IsReached p) (sym on) (
              subst
                (λ x. IsReached p (
                  add_report x (probe_pod cfg x env t).0
                    (reached_by cfg env pods (probe_pod cfg q env t).1)))
                e (first-IsReached p (probe_pod cfg p env t).0 r _ asked))
      ]
  answers-IsReached (q ∷ pods) whole p t cut ans w h (inr m) =
      elim (probe_step cfg env initial q pods t) [
        | inl (off, on) ↦
            subst (IsReached p) (sym on) (answers-IsReached pods whole p t cut ans w h m)
        | inr (up, on) ↦ subst (IsReached p) (sym on) (
            later-IsReached p q (probe_pod cfg q env t).0 _
              (answers-IsReached pods whole p (probe_pod cfg q env t).1 cut ans w h m))
      ]

  -- A reached pod's report tells the role that it has at the start of the tick.
  pub reached_role :
      (pods : List Pod) (r : PodInfo) (t : Trace)
      → Reports initial env
      → In r (reached_by cfg env pods t)
      → is_master (some r.info) ≡ master_after initial t (address r.pod.ip cfg.redis_port)
  reached_role pods r t reports m =
      (All-In _ (reached_by cfg env pods t) r (reached_by-IsSeen cfg env initial pods t reports)
        m).role
      ∙ master_after-probe cfg env initial (address r.pod.ip cfg.redis_port) pods t

  -- A reached pod that is a master is among the masters that the tick finds.
  pub masters_reached :
      (pods : List Pod) (p : Pod) (t : Trace)
      → Reports initial env
      → IsReached p (reached_by cfg env pods t)
      → master_after initial t (address p.ip cfg.redis_port) ≡ true
      → masters_of (reached_by cfg env pods t) ≢ []
  masters_reached pods p t reports (r, m, e) up =
      let role =
        reached_role pods r t reports m
        ∙ ap (λ q. master_after initial t (address q.ip cfg.redis_port)) e
        ∙ up in
      In-not_nil r (masters_of (reached_by cfg env pods t))
        (In-keep_if (λ pi. is_master (some pi.info)) (reached_by cfg env pods t) r m role)

  down_none :
      (p : Pod) (t : Trace) (cut : Outages env)
      → cut.up (address p.ip cfg.redis_port) ≡ false
      → (probe_pod cfg p env t).0 ≡ none
  unfolding probe_pod
  down_none p t cut h = ground (arith, cut.down t (address p.ip cfg.redis_port) h)

  abbrev pub IsUp : Outages env → PodInfo → Type 0
  IsUp cut r = cut.up (address r.pod.ip cfg.redis_port) ≡ true

  add_report-IsUp :
      (p : Pod) (t : Trace) (cut : Outages env) (o : Option ReplicationInfo) (rs : List PodInfo)
      → (probe_pod cfg p env t).0 ≡ o
      → All (IsUp cut) rs
      → All (IsUp cut) (add_report p o rs)
  add_report-IsUp p t cut none rs e h = h
  add_report-IsUp p t cut (some r) rs e h = (
    elim (Bool-cases (cut.up (address p.ip cfg.redis_port))) [
      | inl y ↦ y
      | inr n ↦ absurd (cc (down_none p t cut n, e))
    ],
    h,
  )

  -- Only pods that are up are reached.
  pub reached_by-IsUp :
      (pods : List Pod) (t : Trace) (cut : Outages env) → All (IsUp cut) (reached_by cfg env pods t)
  reached_by-IsUp [] t cut = unfold probe in tt
  reached_by-IsUp (p ∷ pods) t cut = elim (probe_step cfg env initial p pods t) [
    | inl (off, on) ↦ subst (All (IsUp cut)) (sym on) (reached_by-IsUp pods t cut)
    | inr (probed, on) ↦ subst (All (IsUp cut)) (sym on) (
        add_report-IsUp p t cut (probe_pod cfg p env t).0 _ refl
          (reached_by-IsUp pods (probe_pod cfg p env t).1 cut))
  ]

  pub reached_by-AllObey :
      (pods : List Pod) (t : Trace) → Outages env → AllObey cfg env (reached_by cfg env pods t)
  reached_by-AllObey pods t cut = All-of_In _ (reached_by cfg env pods t) (λ r m.
      cut.obeys (address r.pod.ip cfg.redis_port)
        (All-In (IsUp cut) (reached_by cfg env pods t) r (reached_by-IsUp pods t cut) m))
