-- ===== src/Controller/Wire/Probes.antt =====
-- What the probes make of the bytes that the servers send.
use redis_replication_contro.Base.{
  ◌≡◌, refl, ap₂, ◌⊎◌, inl, inr, true, false, Option, none, some, List, [], ◌∷◌, ◌++◌, arith, All,
  keep_if, Bool-cases,
}
use redis_replication_contro.Base.Bytes.{Bytes}
use redis_replication_contro.Redis.Resp.{write_bulk}
use redis_replication_contro.Redis.Resp.RoundTrip.{Fits}
use redis_replication_contro.Redis.Info.{ReplicationInfo}
use redis_replication_contro.Redis.Info.RoundTrip.{info_text, entries_of, IsPrintable}
use redis_replication_contro.Redis.Client.Wire.{IsOpen, info_replication-report}
use redis_replication_contro.Kube.Pods.{Pod}
use redis_replication_contro.Config.{Config}
use redis_replication_contro.Controller.Select.{PodInfo}
use redis_replication_contro.Controller.World.{Trace, Env, dial}
use redis_replication_contro.Controller.Failover.{address}
use redis_replication_contro.Controller.Reconcile.{is_probed, add_report, probe_pod, probe}
use redis_replication_contro.Controller.Wire.{Network, over_tcp}

-- The server at an address sends this report, as the INFO text of a bulk string.
pub record Sends (net : Network) (addr : Bytes) (r : ReplicationInfo) : Type 0 where
  pub reached : (t : Trace) → net.reaches t addr ≡ true
  pub opened : (t : Trace) → IsOpen (net.times t) (net.socket t addr)
  pub printable : IsPrintable r
  pub fits : Fits (info_text (entries_of r))
  pub rest : Trace → Bytes
  pub text :
      (t : Trace) → (net.socket t addr).incoming ≡ write_bulk (info_text (entries_of r)) ++ rest t

-- What a pod does: its server sends a report, or cannot be reached.
abbrev pub Answers : Network → Config → (Pod → Option ReplicationInfo) → Pod → Type 0
Answers net cfg reports pod =
    let addr = address pod.ip cfg.redis_port in
    ((r : ReplicationInfo) × ((reports pod ≡ some r) × Sends net addr r))
    ⊎ ((reports pod ≡ none) × ((t : Trace) → net.reaches t addr ≡ false))

-- The probed pods with their reports.
abbrev pub reported : (Pod → Option ReplicationInfo) → List Pod → List PodInfo
reported reports [] = []
reported reports (pod ∷ pods) = add_report pod (reports pod) (reported reports pods)

module _ (cfg : Config) (net : Network) (env : Env) (reports : Pod → Option ReplicationInfo) where
  probe_pod-reports :
      (pod : Pod) (t : Trace)
      → Answers net cfg reports pod
      → (probe_pod cfg pod (over_tcp net env) t).0 ≡ reports pod
  unfolding probe_pod over_tcp
  probe_pod-reports pod t (inl (r, (e, s))) =
      let addr = address pod.ip cfg.redis_port in
      let t' = dial addr ∷ t in
      let got =
        info_replication-report (net.times t') (net.socket t' addr) r (s.rest t') (s.opened t')
          s.printable s.fits (s.text t') in
      ground (arith, s.reached t, got.0)
  probe_pod-reports pod t (inr (e, refused)) = ground (arith, refused t)

  -- With the controller's calls on TCP connections, a round of probes returns exactly the probed pods
  -- whose servers can be reached, in the order of the pods, each with the report that its server sent,
  -- field for field. Conditions: a server sends its report as the bulk string of its INFO text, the texts
  -- are printable ASCII without spaces, the numbers are 64-bit integers, and the connections take
  -- deadlines and writes.
  pub probe-reported :
      (pods : List Pod) (t : Trace)
      → All (Answers net cfg reports) pods
      → (probe cfg pods (over_tcp net env) t).0 ≡ reported reports (keep_if is_probed pods)
  unfolding probe
  probe-reported [] t h = refl
  probe-reported (pod ∷ pods) t (h, hs) = elim (Bool-cases (is_probed pod)) [
    | inl e ↦
        let t' = (probe_pod cfg pod (over_tcp net env) t).1 in
        rw (e, keep_if)
          (ap₂ (add_report pod) (probe_pod-reports pod t h) (probe-reported pods t' hs))
    | inr e ↦ rw (e, keep_if) (probe-reported pods t hs)
  ]
