-- ===== src/Controller/Reconcile/Labels.antt =====
-- The role labels that a tick writes.
use mathlib.Core.List.{reverse, reverse-cons}
use redis_replication_contro.Base.{
  ◌≡◌, refl, Bool, not, some, List, [], ◌∷◌, ◌++◌, map, append_assoc, arith, keep_if, if◌then◌else◌,
}
use redis_replication_contro.Base.Bytes.{Bytes, codes, bytes_eq}
use redis_replication_contro.Kube.Pods.{Pod, get, patch_labels, role_label, set_role_label}
use redis_replication_contro.Controller.World.{Event, patch, Trace, Env}
use redis_replication_contro.Controller.Reconcile.{sync_labels}

-- The text of the role label that a pod is to have.
abbrev pub role_for : Bytes → Pod → Bytes
role_for master_name pod = if bytes_eq pod.name master_name then codes "master" else codes "replica"

abbrev pub label_patch : Bytes → Pod → Event
label_patch master_name pod =
    patch pod.namespace pod.name
      (patch_labels ((codes "redis-current-role", some (role_for master_name pod)) ∷ []))

abbrev pub is_mislabeled : Bytes → Pod → Bool
is_mislabeled master_name pod =
    not (bytes_eq (get pod.labels (codes "redis-current-role")) (role_for master_name pod))

reverse_snoc : (e : Event) (es t : Trace) → reverse es ++ (e ∷ t) ≡ reverse (e ∷ es) ++ t
reverse_snoc e es t = rw (reverse-cons, append_assoc)

-- `sync_labels` patches exactly the pods whose label `redis-current-role` is not the wanted one, each once
-- and in the order of the pods: with "master" for the pods of the master's name and "replica" for all
-- others. A failed patch does not keep the others from being sent.
pub sync_labels-patches :
    (env : Env) (name : Bytes) (pods : List Pod) (t : Trace)
    → (sync_labels name pods env t).1
      ≡ reverse (map (label_patch name) (keep_if (is_mislabeled name) pods)) ++ t
unfolding sync_labels role_label set_role_label
sync_labels-patches env name [] t = refl
sync_labels-patches env name (pod ∷ pods) t = ground (
  arith,
  sync_labels-patches env name pods t,
  sync_labels-patches env name pods (label_patch name pod ∷ t),
  reverse_snoc (label_patch name pod) (map (label_patch name) (keep_if (is_mislabeled name) pods))
      t,
)
