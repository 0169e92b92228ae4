-- ===== src/Controller/Reconcile.antt =====
-- `probe`, `syncLabels`, `reconcileSet` and `reconcile` of internal/controller/controller.go. The probes
-- run here one after the other in the order of the pods, where the source starts a goroutine for each,
-- which talks to its own pod and writes its own slot; the environment may answer each as it likes.
pub mod Labels
pub mod Promotions
pub mod Waits
pub mod Elects
pub mod Isolated
pub mod Outcomes
mod Tests
use redis_replication_contro.Base.{
  ℕ, ◌-◌, Bool, true, false, not, ◌||◌, Option, none, some, List, [], ◌∷◌, if◌then◌else◌, keep_if,
  leb,
}
use redis_replication_contro.Base.Int.{ℤ, pos, sub_ℕ, ltb_ℤ}
use redis_replication_contro.Base.Result.{Result, ok, err}
use redis_replication_contro.Base.Bytes.{Bytes, codes, bytes_eq, is_empty}
use redis_replication_contro.Redis.Info.{ReplicationInfo, is_master}
use redis_replication_contro.Kube.Pods.{
  Pod, role_label, role_master, role_replica, set_role_label, ListError,
}
use redis_replication_contro.Config.{Config}
use redis_replication_contro.Controller.Select.{PodInfo, labeled_master, select_bootstrap_candidate}
use redis_replication_contro.Controller.Sets.{
  SetKey, SetState, Sets, Groups, put, group, group_by_set, sorted_keys, state_for,
  prune_vanished_sets,
}
use redis_replication_contro.Controller.World.{
  dial, close, patch, Action, ◌>>=◌, ◌>>◌, pure, call, ignore, get_report, list_pods, now,
}
use redis_replication_contro.Controller.Failover.{ControllerError, address, redirect, failover}

-- Only a running pod with an address is probed.
unfoldable pub is_probed : Pod → Bool
is_probed pod = not (is_empty pod.ip || not (bytes_eq pod.phase (codes "Running")))

probe_connected : Bytes → Bool → Action (Option ReplicationInfo)
probe_connected addr false = pure none
probe_connected addr true = do r ← get_report addr; ignore (close addr); pure r

-- One goroutine: the report of a pod, if it answers.
unfoldable pub probe_pod : Config → Pod → Action (Option ReplicationInfo)
unfolding probe_connected
probe_pod cfg pod = do
  let addr = address pod.ip cfg.redis_port
  connected ← call (dial addr)
  probe_connected addr connected

abbrev pub add_report : Pod → Option ReplicationInfo → List PodInfo → List PodInfo
add_report pod none rest = rest
add_report pod (some r) rest = record { pod = pod; info = r } ∷ rest

unfoldable pub probe : Config → List Pod → Action (List PodInfo)
unfolding is_probed
probe cfg [] = pure []
probe cfg (pod ∷ pods) =
    let skip = probe cfg pods in
    let ask = probe_pod cfg pod >>= λ r. probe cfg pods >>= λ rest. pure (add_report pod r rest) in
    if is_probed pod then ask else skip

abbrev pub wanted_role : Bytes → Pod → Bytes
wanted_role master_name pod = if bytes_eq pod.name master_name then role_master else role_replica

-- A failed patch is logged, and the next tick tries again.
unfoldable pub sync_labels : Bytes → List Pod → Action Unit
sync_labels master_name [] = pure tt
sync_labels master_name (pod ∷ pods) =
    let skip = sync_labels master_name pods in
    let set =
      ignore (patch pod.namespace pod.name (set_role_label (wanted_role master_name pod))) >>= λ _.
      sync_labels master_name pods in
    if bytes_eq (role_label pod) (wanted_role master_name pod) then skip else set

abbrev pub masters_of : List PodInfo → List PodInfo
masters_of = keep_if (λ pi. is_master (some pi.info))

abbrev pub replicas_of : List PodInfo → List PodInfo
replicas_of = keep_if (λ pi. not (is_master (some pi.info)))

unfoldable pub or_bootstrap : Bytes → PodInfo → List PodInfo → Option PodInfo → PodInfo
or_bootstrap strategy m ms (some labeled) = labeled
or_bootstrap strategy m ms none = elim (select_bootstrap_candidate strategy (m ∷ ms)) [
  | some r ↦ r
  | none ↦ m
]

-- The master among several: the first labelled one, else the bootstrap choice, which is never nil for a
-- list that is not empty.
unfoldable pub pick_master : Bytes → PodInfo → List PodInfo → PodInfo
unfolding or_bootstrap
pick_master strategy m ms = or_bootstrap strategy m ms (labeled_master (m ∷ ms))

abbrev pub Outcome : Type 0
Outcome = Result ControllerError Unit × SetState

abbrev pub found_master : SetState → SetState
found_master st = record st { master_missing_at = none }

unfoldable pub after_failover :
    List Pod → Result ControllerError (Option PodInfo) × SetState → Action Outcome
after_failover pods (err e, st) = pure (err e, st)
after_failover pods (ok none, st) = pure (ok tt, st)
after_failover pods (ok (some master), st) = do
  sync_labels master.pod.name pods
  pure (ok tt, found_master st)

unfoldable pub missing_since : Option ℕ → Action ℕ
missing_since (some t) = pure t
missing_since none = now

-- No master was found: wait for the threshold, then fail over.
unfoldable pub no_master : Config → List Pod → List PodInfo → SetState → Action Outcome
unfolding missing_since after_failover
no_master cfg pods replicas st = do
  since ← missing_since st.master_missing_at
  let st' = record st { master_missing_at = some since }
  t ← now
  let wait = pure (ok tt, st')
  let act = failover cfg pods replicas st' >>= after_failover pods
  if ltb_ℤ (sub_ℕ t since) cfg.master_failure_threshold then wait else act

-- The switch on the number of masters.
unfoldable pub with_masters :
    Config → List Pod → List PodInfo → SetState → List PodInfo → Action Outcome
unfolding no_master
with_masters cfg pods replicas st [] = no_master cfg pods replicas st
with_masters cfg pods replicas st (m ∷ []) = do
  sync_labels m.pod.name pods
  pure (ok tt, found_master st)
with_masters cfg pods replicas st (m ∷ n ∷ ms) = do
  let master = pick_master cfg.initial_master_strategy m (n ∷ ms)
  redirect cfg master.pod.name master.pod.ip (m ∷ n ∷ ms)
  sync_labels master.pod.name pods
  pure (ok tt, found_master st)

unfoldable pub reconcile_set : Config → List Pod → SetState → Action Outcome
unfolding with_masters
reconcile_set cfg pods st = do
  reached ← probe cfg pods
  with_masters cfg pods (replicas_of reached) st (masters_of reached)

-- The loop over the sets; a set's error is logged and does not stop the others.
unfoldable pub reconcile_keys : Config → Groups → List SetKey → Sets → Action Sets
unfolding reconcile_set
reconcile_keys cfg groups [] sets = pure sets
reconcile_keys cfg groups (key ∷ rest) sets =
    let (st, sets') = state_for sets key in
    reconcile_set cfg (group groups key) st >>= λ r.
    reconcile_keys cfg groups rest (put sets' key r.1)

unfoldable pub reconcile_pods :
    Config → Sets → Result ListError (List Pod) → Action (Result ListError Unit × Sets)
reconcile_pods cfg sets (err e) = pure (err e, sets)
reconcile_pods cfg sets (ok pods) = do
  let groups = group_by_set pods cfg.redis_set_label_key cfg.default_set_name
  sets' ← reconcile_keys cfg groups (sorted_keys groups) sets
  pure (ok tt, prune_vanished_sets groups sets')

unfoldable pub reconcile : Config → Sets → Action (Result ListError Unit × Sets)
unfolding reconcile_pods
reconcile cfg sets = do
  pods ← list_pods cfg.redis_namespaces cfg.redis_pod_label_selector
  reconcile_pods cfg sets pods
