-- ===== src/Entry/Starts.antt =====
-- With what the program starts, and what its readiness handler answers.
use mathlib.Core.Path.{subst}
use redis_replication_contro.Base.{
  ◌≡◌, ◌≢◌, refl, true, Option, none, some, [], ◌∷◌, arith, if◌then◌else◌,
}
use redis_replication_contro.Base.Result.{Result, ok, err}
use redis_replication_contro.Base.Bytes.{Bytes}
use redis_replication_contro.Config.{Config, ConfigError}
use redis_replication_contro.Config.Env.{Env, get_env, default_controller_id}
use redis_replication_contro.Config.Load.{Parsed, load, assemble}
use redis_replication_contro.Config.Valid.{IsValid, load-IsValid, load-assemble}
use redis_replication_contro.Leader.{election_config, IsElectable}
use redis_replication_contro.Entry.{
  Platform, Launch, elected, alone, config_of, connect, main, serve_health,
}

given-some : (v : Option Bytes) (key def : Bytes) → def ≢ [] → get_env (λ k. v) key def ≢ []
unfolding get_env
given-some none key def h = h
given-some (some []) key def h = h
given-some (some (c ∷ v)) key def h = cc

get_env-some : (env : Env) (key def : Bytes) → def ≢ [] → get_env env key def ≢ []
unfolding get_env
get_env-some env key def h = given-some (env key) key def h

default_controller_id-some : (hostname : Option Bytes) → default_controller_id hostname ≢ []
unfolding default_controller_id
default_controller_id-some none = cc
default_controller_id-some (some []) = cc
default_controller_id-some (some (c ∷ v)) = cc

assemble-IsElectable :
    (env : Env) (hostname : Option Bytes) (p : Parsed)
    → IsElectable (election_config (assemble env hostname p))
unfolding assemble
assemble-IsElectable env hostname p = record {
  lease = omega arith;
  renewal = omega arith;
  retry = omega arith;
  identity = get_env-some env _ _ (default_controller_id-some hostname);
}

serve_health-some : (addr : Bytes) → addr ≢ [] → serve_health addr ≡ some addr
unfolding serve_health
serve_health-some [] h = absurd (h refl)
serve_health-some (c ∷ addr) h = refl

assemble-serves :
    (env : Env) (hostname : Option Bytes) (p : Parsed)
    → serve_health (assemble env hostname p).health_probe_addr
      ≡ some (assemble env hostname p).health_probe_addr
unfolding assemble
assemble-serves env hostname p = serve_health-some _ (get_env-some env _ _ (λ e. cc))

connect_ok :
    (p : Platform) (r : Result ConfigError Config) (l : Launch)
    → connect p r ≡ ok l
    → (r ≡ ok (config_of l))
      × ((p.has_cluster_config ≡ true)
          × ((p.has_client ≡ true)
              × (l ≡ (
                  if (config_of l).enable_leader_election
                  then elected (config_of l)
                  else alone (config_of l)))))
unfolding connect
connect_ok p (err e) l h = cc
connect_ok p (ok cfg) l h = ground arith

-- The program starts only with a configuration that is valid, with the cluster's configuration and a
-- client; then its health server listens, the leader election accepts what it is given, and the election
-- is used exactly if it is enabled.
pub main_starts :
    (p : Platform) (l : Launch)
    → main p ≡ ok l
    → let c = config_of l in
      IsValid c
      × ((p.has_cluster_config ≡ true) × (p.has_client ≡ true))
      × (serve_health c.health_probe_addr ≡ some c.health_probe_addr)
      × IsElectable (election_config c)
      × (l ≡ (if c.enable_leader_election then elected c else alone c))
unfolding main
main_starts p l h =
    let (loaded, (cluster, (client, launch))) = connect_ok p (load p.env p.hostname) l h in
    let (parsed, (same, valid)) = load-assemble p.env p.hostname (config_of l) loaded in
    (
      (load-IsValid p.env p.hostname (config_of l) loaded).0,
      (cluster, client),
      subst (λ c. serve_health c.health_probe_addr ≡ some c.health_probe_addr) same
          (assemble-serves p.env p.hostname parsed),
      subst (λ c. IsElectable (election_config c)) same
          (assemble-IsElectable p.env p.hostname parsed),
      launch,
    )
