-- ===== src/Config/Valid.antt =====
-- What a configuration that `load` accepts satisfies, and the range in which seconds are exact.
use mathlib.Core.Path.{subst, ap}
use redis_replication_contro.Base.{
  ℕ, ◌*◌, ◌^◌, ◌≤◌, ◌≡◌, ◌≢◌, ◌↔◌, ◌⊎◌, refl, true, false, Option, List, [], ◌∷◌, arith,
}
use redis_replication_contro.Base.Int.{
  ℤ, pos, IsInt64, ◌≤ℤ◌, ◌<ℤ◌, wrap64, wrap64-IsInt64, wrap64_of_fits,
}
use redis_replication_contro.Base.Result.{Result, ok, ◌>>◌, >>=-eq-ok}
use redis_replication_contro.Base.Bytes.{Bytes, codes}
use redis_replication_contro.Base.Bytes.Laws.{bytes_eq_iff}
use redis_replication_contro.Config.{Config, ConfigError, is_blank, is_nil, is_strategy, validate}
use redis_replication_contro.Config.Env.{Env, get_env, seconds}
use redis_replication_contro.Config.Load.{Parsed, load_parsed, assemble, load}

pub record IsValid (c : Config) : Type 0 where
  pub port_low : pos 1 ≤ℤ c.redis_port
  pub port_high : c.redis_port ≤ℤ pos 65535
  pub selector : is_blank c.redis_pod_label_selector ≡ false
  pub namespace : is_blank c.redis_namespace ≡ false
  pub namespaces : c.redis_namespaces ≢ []
  pub set_label_key : is_blank c.redis_set_label_key ≡ false
  pub default_set_name : is_blank c.default_set_name ≡ false
  pub concurrency : pos 1 ≤ℤ c.probe_concurrency
  pub strategy :
      (c.initial_master_strategy ≡ codes "first-healthy")
      ⊎ (c.initial_master_strategy ≡ codes "lowest-pod-ordinal")
      ⊎ (c.initial_master_strategy ≡ codes "annotation-preferred")
  pub interval : pos 0 <ℤ c.reconcile_interval
  pub command_timeout : pos 0 <ℤ c.redis_command_timeout

is_strategy_iff :
    (s : Bytes)
    → (is_strategy s ≡ true) ↔ (
        (s ≡ codes "first-healthy")
        ⊎ (s ≡ codes "lowest-pod-ordinal")
        ⊎ (s ≡ codes "annotation-preferred"))
unfolding is_strategy
is_strategy_iff s = (
  λ h. ground (
    arith,
    bytes_eq_iff s (codes "first-healthy"),
    bytes_eq_iff s (codes "lowest-pod-ordinal"),
    bytes_eq_iff s (codes "annotation-preferred"),
  ),
  λ h. ground (
    arith,
    bytes_eq_iff s (codes "first-healthy"),
    bytes_eq_iff s (codes "lowest-pod-ordinal"),
    bytes_eq_iff s (codes "annotation-preferred"),
  ),
)

is_nil-false : (xs : List Bytes) → is_nil xs ≡ false → xs ≢ []
is_nil-false [] h = cc
is_nil-false (x ∷ xs) h = cc

validate-IsValid : (c : Config) → validate c ≡ ok tt → IsValid c
unfolding validate
validate-IsValid c h =
    ground (arith, is_nil-false c.redis_namespaces, (is_strategy_iff c.initial_master_strategy).0)

nil-false : (xs : List Bytes) → xs ≢ [] → is_nil xs ≡ false
nil-false [] h = absurd (h refl)
nil-false (x ∷ xs) h = refl

-- The validation accepts exactly the valid configurations: the port within 1 to 65535, no blank
-- selector, namespace, set label or default set, at least one namespace, a probe concurrency of at least
-- 1, the strategy first-healthy, lowest-pod-ordinal or annotation-preferred, and a positive interval and command timeout.
pub validate_iff : (c : Config) → (validate c ≡ ok tt) ↔ IsValid c
validate_iff c = (validate-IsValid c, complete)
  where
    complete : IsValid c → validate c ≡ ok tt
    complete v =
        unfold validate in
        ground (
          arith,
          nil-false c.redis_namespaces v.namespaces,
          (is_strategy_iff c.initial_master_strategy).1 v.strategy,
        )

abbrev checked_config : Env → Option Bytes → Parsed → Result ConfigError Config
checked_config env hostname p = do let c = assemble env hostname p; validate c; ok c

ok-injective : {A : Type 0} (a b : A) → ◌≡◌ {A = Result ConfigError A} (ok a) (ok b) → a ≡ b
ok-injective a b e = cc

-- Where a configuration comes from.
pub load-assemble :
    (env : Env) (hostname : Option Bytes) (c : Config)
    → load env hostname ≡ ok c
    → (p : Parsed) × ((assemble env hostname p ≡ c) × (validate (assemble env hostname p) ≡ ok tt))
unfolding load
load-assemble env hostname c h =
    let (p, _, checked) = >>=-eq-ok (load_parsed env) (checked_config env hostname) h in
    let (_, valid, same) =
      >>=-eq-ok (validate (assemble env hostname p)) (λ _. ok (assemble env hostname p)) checked in
    (p, (ok-injective _ _ same, valid))

-- The configuration that `load` returns is valid, and its lease is in the controller's namespace unless
-- LEASE_NAMESPACE names another.
pub load-IsValid :
    (env : Env) (hostname : Option Bytes) (c : Config)
    → load env hostname ≡ ok c
    → IsValid c × (c.lease_namespace ≡ get_env env (codes "LEASE_NAMESPACE") c.redis_namespace)
load-IsValid env hostname c h =
    let (p, (same, valid)) = load-assemble env hostname c h in
    subst
      (λ c.
        IsValid c × (c.lease_namespace ≡ get_env env (codes "LEASE_NAMESPACE") c.redis_namespace))
      same (validate-IsValid (assemble env hostname p) valid, unfold assemble in refl)

abbrev ok_duration : ℤ → Result ConfigError ℤ
ok_duration = ok

wrapped_fits : (m : ℕ) → ok_duration (wrap64 (pos m)) ≡ ok_duration (pos m) → IsInt64 (pos m)
wrapped_fits m e = subst IsInt64 (ok-injective _ _ e) (wrap64-IsInt64 (pos m))

-- `<KEY>=n` in seconds is exact for every n up to 9223372036, and for no number above it: there the
-- product with 10^9 overflows a 64-bit duration.
pub seconds_exact :
    (key : Bytes) (n : ℕ) → (seconds key (pos n) ≡ ok (pos (n * 10 ^ 9))) ↔ (n ≤ 9223372036)
unfolding seconds
seconds_exact key n = (
  λ e. omega (arith, (wrapped_fits (n * 10 ^ 9) e).0),
  λ h. ap ok (wrap64_of_fits (pos (n * 10 ^ 9)) (omega arith)),
)
