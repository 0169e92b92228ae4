-- ===== src/Controller/Converge/Nodes.antt =====
-- One tick of a set, seen as its nodes: the names and addresses of its pods that are up, which stay while the
-- listed labels and annotations change from tick to tick.
use mathlib.Core.Path.{subst}
use redis_replication_contro.Base.{
  arith, ◌≡◌, ◌≢◌, ◌⊎◌, refl, sym, ap, ◌∙◌, inl, Bool, true, false, some, List, [], ◌∷◌, map, All,
  In, All-In, All-of_In, keep_if, keep_if-In, In-keep_if, keep_if-none, In-map, map-In,
}
use redis_replication_contro.Base.Int.{◌≤ℤ◌}
use redis_replication_contro.Base.Bytes.{Bytes, bytes_eq}
use redis_replication_contro.Base.Bytes.Laws.{bytes_eq_refl}
use redis_replication_contro.Redis.Info.{is_master}
use redis_replication_contro.Kube.Pods.{Pod}
use redis_replication_contro.Config.{Config}
use redis_replication_contro.Controller.Select.{PodInfo}
use redis_replication_contro.Controller.Sets.{SetState}
use redis_replication_contro.Controller.World.{Trace, Env}
use redis_replication_contro.Controller.Failover.{address}
use redis_replication_contro.Controller.Reconcile.{masters_of, reconcile_set}
use redis_replication_contro.Controller.Reconcile.Waits.{reached_by, probed_by, elapsed}
use redis_replication_contro.Controller.Converge.{
  Outages, is_up, master_after, Reports, OneAddressEach,
}
use redis_replication_contro.Controller.Converge.Roles.{master_after-sync_labels}
use redis_replication_contro.Controller.Converge.Seen.{reached_by-IsSeen}
use redis_replication_contro.Controller.Converge.Among.{address_of}
use redis_replication_contro.Controller.Converge.OneMaster.{tick-Elects}
use redis_replication_contro.Controller.Converge.Answers.{
  AnswerAlways, IsUp, reached_by-IsUp, reached_by-AllObey, IsReached, In-not_nil, answers-IsReached,
  masters_reached, reached_role,
}

abbrev pub Node : Type 0
Node = Bytes × Bytes

abbrev pub node : Config → Pod → Node
node cfg p = (p.name, address p.ip cfg.redis_port)

abbrev pub nodes : (env : Env) → Outages env → Config → List Pod → List Node
nodes env cut cfg pods = map (node cfg) (keep_if (is_up env cut cfg) pods)

-- A listing of a set with these nodes, which answer always.
pub record IsListing (cfg : Config) (env : Env) (cut : Outages env) (v : List Node)
    (pods : List Pod) : Type 0 where
  pub same : nodes env cut cfg pods ≡ v
  pub one : OneAddressEach cfg pods
  pub answers : AnswerAlways cfg env cut pods

module _ (cfg : Config) (env : Env) (initial : Bytes → Bool) (v : List Node) where
  -- Exactly the nodes with one node's name are masters.
  abbrev pub HasOne : Trace → Type 0
  HasOne t = (m : Node) × In m v × All (λ x. master_after initial t x.1 ≡ bytes_eq x.0 m.0) v

  abbrev pub HasNone : Trace → Type 0
  HasNone t = All (λ x. master_after initial t x.1 ≡ false) v

  module _ (cut : Outages env) (pods : List Pod) (h : IsListing cfg env cut v pods)
      (reports : Reports initial env) where
    node-In : (p : Pod) → In p pods → is_up env cut cfg p ≡ true → In (node cfg p) v
    node-In p m up = subst (In (node cfg p)) h.same (
        In-map (node cfg) (keep_if (is_up env cut cfg) pods) p
          (In-keep_if (is_up env cut cfg) pods p m up))

    reached-In :
        (r : PodInfo) (t : Trace) → In r (reached_by cfg env pods t) → In (node cfg r.pod) v
    reached-In r t m =
        let reached = reached_by cfg env pods t in
        let seen = All-In _ reached r (reached_by-IsSeen cfg env initial pods t reports) m in
        let up =
          All-In (IsUp cfg env initial cut) reached r (reached_by-IsUp cfg env initial pods t cut)
            m in
        node-In r.pod seen.member (ground (arith, seen.probed))

    -- The reached pod of a node.
    node-IsReached :
        (x : Node) (t : Trace)
        → In x v
        → (p : Pod) × (node cfg p ≡ x) × IsReached cfg env initial p (reached_by cfg env pods t)
    node-IsReached x t m =
        let (p, mp, e) =
          map-In (node cfg) (keep_if (is_up env cut cfg) pods) x (subst (In x) (sym h.same) m) in
        let (mq, up) = keep_if-In (is_up env cut cfg) pods p mp in
        (p, e, answers-IsReached cfg env initial pods pods p t cut h.answers mq up mq)

    some_reached : (t : Trace) → v ≢ [] → reached_by cfg env pods t ≢ []
    some_reached t some_up =
        let (x, m) = first v some_up in
        let (p, e, (r, mr, er)) = node-IsReached x t m in
        In-not_nil r (reached_by cfg env pods t) mr
      where
        first : (l : List Node) → l ≢ [] → (x : Node) × In x l
        first [] n = absurd (n refl)
        first (x ∷ l) n = (x, inl refl)

    pub one_found : (t : Trace) → HasOne t → masters_of (reached_by cfg env pods t) ≢ []
    one_found t (m, at, roles) =
        let (p, e, reached) = node-IsReached m t at in
        masters_reached cfg env initial pods p t reports reached
          (ap (λ x. master_after initial t x.1) e ∙ All-In _ v m roles at ∙ bytes_eq_refl m.0)

    pub none_found : (t : Trace) → HasNone t → masters_of (reached_by cfg env pods t) ≡ []
    none_found t roles =
        keep_if-none (λ pi. is_master (some pi.info)) (reached_by cfg env pods t)
          (All-of_In _ (reached_by cfg env pods t) (λ r m.
            reached_role cfg env initial pods r t reports m
            ∙ All-In _ v (node cfg r.pod) roles (reached-In r t m)))

    -- A tick that finds a master, or finds none when the threshold has passed, leaves exactly one.
    pub tick-HasOne :
        (st : SetState) (t : Trace)
        → v ≢ []
        → (masters_of (reached_by cfg env pods t) ≢ [])
          ⊎ (cfg.master_failure_threshold
              ≤ℤ elapsed env st.master_missing_at (probed_by cfg env pods t))
        → HasOne (reconcile_set cfg pods st env t).1
    tick-HasOne st t some_up due =
        let x =
          tick-Elects cfg env initial (λ ns name. []) pods st t
            (reached_by-AllObey cfg env initial pods t cut) reports h.one (some_reached t some_up)
            due in
        let reached = reached_by cfg env pods t in
        (
          node cfg x.master.pod,
          reached-In x.master t x.sole.0,
          All-of_In _ v (λ y m.
              let (p, e, (r, mr, er)) = node-IsReached y t m in
              let same : node cfg r.pod ≡ y = ap (node cfg) er ∙ e in
              subst
                (λ z.
                  master_after initial (reconcile_set cfg pods st env t).1 z.1
                  ≡ bytes_eq z.0 x.master.pod.name)
                same
                (ap (λ u. master_after initial u (address_of cfg r)) x.ends.finish
                  ∙ master_after-sync_labels cfg env initial (address_of cfg r) x.master.pod.name
                      pods x.before
                  ∙ All-In _ reached r x.sole.1 mr)),
        )
