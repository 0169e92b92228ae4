-- ===== src/Controller/World.antt =====
-- The world of the controller. Each call that leaves the process is an event; the environment answers an
-- event by what happened before it, so it may be any deterministic or scripted cluster. An action takes
-- the events so far, the newest first, and returns the events after it.
use redis_replication_contro.Base.{ℕ, Bool, true, false, Option, List, ◌∷◌}
use redis_replication_contro.Base.Int.{ℤ}
use redis_replication_contro.Base.Bytes.{Bytes}
use redis_replication_contro.Base.Result.{Result}
use redis_replication_contro.Redis.Info.{ReplicationInfo}
use redis_replication_contro.Kube.Pods.{Pod, Patch, Listing, ListError, list_redis_pods}

pub data Event : Type 0 where
  clock stamp : Event
  dial info no_one rewrite close : Bytes → Event
  replica_of : Bytes → Bytes → ℤ → Event
  patch : Bytes → Bytes → Patch → Event
  list : List Bytes → Bytes → Event

abbrev pub Trace : Type 0
Trace = List Event

-- The answers: does a call succeed, the report of `INFO replication` (`none` is an error), the pods of
-- each namespace, the clock in nanoseconds, the time of day in RFC 3339.
pub record Env : Type 0 where
  pub succeeds : Trace → Event → Bool
  pub report : Trace → Bytes → Option ReplicationInfo
  pub listing : Trace → Listing
  pub time : Trace → ℕ
  pub stamp : Trace → Bytes

abbrev pub Action : Type 0 → Type 0
Action A = Env → Trace → A × Trace

infixl 5 ◌>>=◌ ◌>>◌
abbrev pub ◌>>=◌ : {A B : Type 0} → Action A → (A → Action B) → Action B
◌>>=◌ m f env t = let (a, t') = m env t in f a env t'

abbrev pub ◌>>◌ : {A B : Type 0} → Action A → Action B → Action B
m >> k = m >>= λ _. k

abbrev pub pure : {A : Type 0} → A → Action A
pure a env t = (a, t)

-- A call that may fail.
abbrev pub call : Event → Action Bool
call e env t = (env.succeeds t e, e ∷ t)

-- A call whose result the source does not look at.
abbrev pub ignore : Event → Action Unit
ignore e env t = (tt, e ∷ t)

abbrev pub get_report : Bytes → Action (Option ReplicationInfo)
get_report addr env t = (env.report t addr, info addr ∷ t)

-- The namespaces are listed one after the other, and no namespace twice (`parse_namespaces_names`), so
-- one function holds the answers; the calls are one event.
abbrev pub list_pods : List Bytes → Bytes → Action (Result ListError (List Pod))
list_pods namespaces selector env t =
    (list_redis_pods (env.listing t) namespaces selector, list namespaces selector ∷ t)

abbrev pub now : Action ℕ
now env t = (env.time t, clock ∷ t)

abbrev pub time_stamp : Action Bytes
time_stamp env t = (env.stamp t, stamp ∷ t)

abbrev pub when : Bool → Action Unit → Action Unit
when true m = m
when false m = pure tt
