-- ===== src/Leader.antt =====
-- internal/leader/leader.go: what `Run` hands to client-go's leader election, and its callbacks. The
-- election itself is client-go's.
use redis_replication_contro.Base.{ℕ, ◌*◌, ◌^◌, ◌<◌, ◌≢◌, Bool, true, List, [], ◌∷◌, if◌then◌else◌}
use redis_replication_contro.Base.Bytes.{Bytes, bytes_eq}
use redis_replication_contro.Config.{Config}

-- The durations are in nanoseconds.
pub record ElectionConfig : Type 0 where
  pub lease_name : Bytes
  pub lease_namespace : Bytes
  pub identity : Bytes
  pub release_on_cancel : Bool
  pub lease_duration : ℕ
  pub renew_deadline : ℕ
  pub retry_period : ℕ

abbrev pub election_config : Config → ElectionConfig
election_config cfg = record {
  lease_name = cfg.lease_name;
  lease_namespace = cfg.lease_namespace;
  identity = cfg.controller_id;
  release_on_cancel = true;
  lease_duration = 15 * 10 ^ 9;
  renew_deadline = 10 * 10 ^ 9;
  retry_period = 2 * 10 ^ 9;
}

data Event : Type 0 where
  started_leading stopped_leading : Event
  new_leader : Bytes → Event

data Reaction : Type 0 where
  acquired on_started lost : Reaction
  observed : Bytes → Reaction

-- What a callback does: its log, and the call of `onStarted`.
unfoldable react : Config → Event → List Reaction
react cfg started_leading = acquired ∷ on_started ∷ []
react cfg stopped_leading = lost ∷ []
react cfg (new_leader identity) =
    if bytes_eq identity cfg.controller_id then [] else observed identity ∷ []

-- What `NewLeaderElector` asks of its configuration, where `RunOrDie` panics otherwise: a lease that
-- outlasts the renewal, a renewal that outlasts a retry with its jitter of 6/5, and an identity.
pub record IsElectable (e : ElectionConfig) : Type 0 where
  pub lease : e.renew_deadline < e.lease_duration
  pub renewal : 6 * e.retry_period < 5 * e.renew_deadline
  pub retry : 0 < e.retry_period
  pub identity : e.identity ≢ []
