-- ===== src/Controller/Wire.antt =====
-- The controller's calls of Redis on TCP connections: `Dial` and the commands of internal/redis/client.go
-- as the answers of an environment of the controller.
pub mod Probes
mod Tests
use redis_replication_contro.Base.{Bool, true, false, Option, none, some}
use redis_replication_contro.Base.Result.{Result, ok, err}
use redis_replication_contro.Base.Bytes.{Bytes}
use redis_replication_contro.Redis.Info.{ReplicationInfo}
use redis_replication_contro.Redis.Client.{
  Socket, Times, info_replication, replica_of_no_one, config_rewrite,
}
use redis_replication_contro.Redis.Client
use redis_replication_contro.Controller.World.{
  Trace, Env, Event, clock, stamp, dial, info, no_one, rewrite, close, replica_of, patch, list,
}

-- What the network does at each moment: which addresses can be reached, the times of a call, and the
-- connection to an address.
pub record Network : Type 0 where
  pub reaches : Trace → Bytes → Bool
  pub times : Trace → Times
  pub socket : Trace → Bytes → Socket

abbrev is_ok : {A E : Type 0} → Result E A → Bool
is_ok (ok a) = true
is_ok (err e) = false

abbrev to_option : {A E : Type 0} → Result E A → Option A
to_option (ok a) = some a
to_option (err e) = none

-- The calls of Kubernetes and of the clock stay those of the environment.
abbrev tcp_succeeds : Network → Env → Trace → Event → Bool
tcp_succeeds net env t (dial addr) = net.reaches t addr
tcp_succeeds net env t (no_one addr) = is_ok (replica_of_no_one (net.times t) (net.socket t addr)).0
tcp_succeeds net env t (rewrite addr) = is_ok (config_rewrite (net.times t) (net.socket t addr)).0
tcp_succeeds net env t (replica_of addr host port) =
    is_ok (Client.replica_of host port (net.times t) (net.socket t addr)).0
tcp_succeeds net env t clock = env.succeeds t clock
tcp_succeeds net env t stamp = env.succeeds t stamp
tcp_succeeds net env t (info addr) = env.succeeds t (info addr)
tcp_succeeds net env t (close addr) = env.succeeds t (close addr)
tcp_succeeds net env t (patch ns name p) = env.succeeds t (patch ns name p)
tcp_succeeds net env t (list nss selector) = env.succeeds t (list nss selector)

pub over_tcp : Network → Env → Env
over_tcp net env = record env {
  succeeds = tcp_succeeds net env;
  report = λ t addr. to_option (info_replication (net.times t) (net.socket t addr)).0;
}
