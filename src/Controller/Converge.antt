-- ===== src/Controller/Converge.antt =====
-- What the ticks of internal/controller/controller.go bring a replication set to. The Redis instances
-- are not code of the repository: their replication roles are those that the commands sent so far
-- give them, by the documented effect of `REPLICAOF NO ONE` and `REPLICAOF host port`, and `INFO` reports them.
pub mod Roles
pub mod Seen
pub mod Among
pub mod Labels
pub mod Ends
pub mod Lost
pub mod Elections
pub mod OneMaster
pub mod Stays
pub mod Frame
pub mod Others
pub mod Answers
pub mod Sets
pub mod Visits
pub mod Promise
pub mod Whole
pub mod Nodes
pub mod Recovers
mod Tests
mod WholeTests
mod RecoversTests
mod Samples
use redis_replication_contro.Base.{
  ◌≡◌, Bool, true, false, ◌&&◌, Option, none, some, List, [], ◌∷◌, All, In, All-In, All-of_In,
  keep_if, keep_if-In, if◌then◌else◌,
}
use redis_replication_contro.Base.Bytes.{Bytes, bytes_eq}
use redis_replication_contro.Redis.Info.{ReplicationInfo, is_master}
use redis_replication_contro.Kube.Pods.{Pod, patch_labels, label_role}
use redis_replication_contro.Config.{Config}
use redis_replication_contro.Base.Int.{ℤ}
use redis_replication_contro.Controller.Select.{PodInfo}
use redis_replication_contro.Controller.World.{Event, dial, patch, no_one, replica_of, Trace, Env}
use redis_replication_contro.Controller.Failover.{address}
use redis_replication_contro.Controller.Reconcile.{is_probed}

-- Is the instance at the address a master after the commands, if it was at first as `initial` says?
abbrev pub master_after : (Bytes → Bool) → Trace → Bytes → Bool
master_after initial [] addr = initial addr
master_after initial (no_one a ∷ t) addr =
    if bytes_eq a addr then true else master_after initial t addr
master_after initial (replica_of a host port ∷ t) addr =
    if bytes_eq a addr then false else master_after initial t addr
master_after initial (e ∷ t) addr = master_after initial t addr

-- The role label that a merge patch of the labels leaves; a label that is taken away reads as "".
abbrev pub patched_role : List (Bytes × Option Bytes) → Bytes → Bytes
patched_role [] role = role
patched_role ((key, none) ∷ rest) role =
    patched_role rest (if bytes_eq key label_role then [] else role)
patched_role ((key, some value) ∷ rest) role =
    patched_role rest (if bytes_eq key label_role then value else role)

-- The role label of a pod, by its namespace and name, after the patches sent so far, if it was at first
-- as `initial` says.
abbrev pub label_after : (Bytes → Bytes → Bytes) → Trace → Bytes → Bytes → Bytes
label_after initial [] ns name = initial ns name
label_after initial (patch n m (patch_labels labels) ∷ t) ns name =
    if bytes_eq n ns && bytes_eq m name
    then patched_role labels (label_after initial t ns name)
    else label_after initial t ns name
label_after initial (e ∷ t) ns name = label_after initial t ns name

-- An answered `INFO` reports the role that the instance has.
pub record Reports (initial : Bytes → Bool) (env : Env) : Type 0 where
  pub role :
      (t : Trace) (addr : Bytes) (r : ReplicationInfo)
      → env.report t addr ≡ some r
      → is_master (some r) ≡ master_after initial t addr

-- Among the pods that are probed, one name goes with one address.
pub record OneAddressEach (cfg : Config) (pods : List Pod) : Type 0 where
  pub same :
      (p q : Pod)
      → In p pods
      → In q pods
      → is_probed p ≡ true
      → is_probed q ≡ true
      → bytes_eq (address p.ip cfg.redis_port) (address q.ip cfg.redis_port)
        ≡ bytes_eq p.name q.name

-- The instance at the address accepts connections and carries out what it is told.
pub record Obeys (env : Env) (addr : Bytes) : Type 0 where
  pub dials : (t : Trace) → env.succeeds t (dial addr) ≡ true
  pub promotes : (t : Trace) → env.succeeds t (no_one addr) ≡ true
  pub follows :
      (t : Trace) (host : Bytes) (port : ℤ) → env.succeeds t (replica_of addr host port) ≡ true

abbrev pub AllObey : Config → Env → List PodInfo → Type 0
AllObey cfg env = All (λ r. Obeys env (address r.pod.ip cfg.redis_port))

pub kept-AllObey :
    (cfg : Config) (env : Env) (p : PodInfo → Bool) (rs : List PodInfo)
    → AllObey cfg env rs
    → AllObey cfg env (keep_if p rs)
kept-AllObey cfg env p rs h =
    All-of_In _ (keep_if p rs) (λ r m. All-In _ rs r h (keep_if-In p rs r m).0)

-- Which addresses can be reached does not change: an instance that is up does as it is told, and nobody
-- can connect to one that is down.
pub record Outages (env : Env) : Type 0 where
  pub up : Bytes → Bool
  pub obeys : (addr : Bytes) → up addr ≡ true → Obeys env addr
  pub down : (t : Trace) (addr : Bytes) → up addr ≡ false → env.succeeds t (dial addr) ≡ false

-- The pod is probed and can be reached.
abbrev pub is_up : (env : Env) → Outages env → Config → Pod → Bool
is_up env cut cfg p = is_probed p && cut.up (address p.ip cfg.redis_port)
