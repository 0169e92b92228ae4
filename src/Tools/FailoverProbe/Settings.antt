-- ===== src/Tools/FailoverProbe/Settings.antt =====
-- The environment of tools/failover-probe/main.go (`env`, `envDur`, `envInt`, `loadConfig`) and the keys
-- that it reads before it has found any (`buildSampleKeys`). `time.ParseDuration` and the random numbers
-- are arguments.
use redis_replication_contro.Base.{
  ℕ, zero, suc, ◌+◌, ◌-◌, ◌*◌, ◌/◌, ◌%◌, ◌^◌, Option, none, some, List, [], ◌∷◌, ◌++◌, ltb, ◌==◌,
  if◌then◌else◌,
}
use redis_replication_contro.Base.Int.{ℤ, pos}
use redis_replication_contro.Base.Bytes.{Bytes, codes}
use redis_replication_contro.Strconv.{atoi, format_nat}
use redis_replication_contro.Config.Env.{Env}

pub record ProbeConfig : Type 0 where
  pub addr : Bytes
  pub interval : ℤ
  pub dial_timeout : ℤ
  pub cmd_timeout : ℤ
  pub probe_key : Bytes
  pub data_prefix : Bytes
  pub log_every : ℤ

or_given : Option Bytes → Bytes → Bytes
or_given none def = def
or_given (some []) def = def
or_given (some (c ∷ v)) def = c ∷ v

-- `os.Getenv`, or the default for an unset or empty variable.
unfoldable pub env : Env → Bytes → Bytes → Bytes
unfolding or_given
env vars key def = or_given (vars key) def

abbrev pub or_else : {A : Type 0} → Option A → A → A
or_else none def = def
or_else (some v) def = v

parsed_or : (Bytes → Option ℤ) → Option Bytes → ℤ → ℤ
parsed_or parse none def = def
parsed_or parse (some []) def = def
parsed_or parse (some (c ∷ v)) def = or_else (parse (c ∷ v)) def

-- A text that does not parse is logged, and the default is taken.
unfoldable pub env_dur : (Bytes → Option ℤ) → Env → Bytes → ℤ → ℤ
unfolding parsed_or
env_dur parse_duration vars key def = parsed_or parse_duration (vars key) def

unfoldable pub env_int : Env → Bytes → ℤ → ℤ
unfolding parsed_or
env_int vars key def = parsed_or atoi (vars key) def

unfoldable load_config : (Bytes → Option ℤ) → Env → ProbeConfig
load_config parse_duration vars = record {
  addr =
      env vars (codes "TARGET_ADDR")
        (codes "redis-write-cache.redis-test-enes.svc.cluster.local:6379");
  interval = env_dur parse_duration vars (codes "PROBE_INTERVAL") (pos (250 * 10 ^ 6));
  dial_timeout = env_dur parse_duration vars (codes "DIAL_TIMEOUT") (pos (10 ^ 9));
  cmd_timeout = env_dur parse_duration vars (codes "CMD_TIMEOUT") (pos (10 ^ 9));
  probe_key = env vars (codes "PROBE_KEY") (codes "failover-probe:counter");
  data_prefix = env vars (codes "DATA_PREFIX") (codes "ld");
  log_every = env_int vars (codes "LOG_EVERY") (pos 20);
}

abbrev pub hex_digit : ℕ → ℕ
hex_digit d = if ltb d 10 then b'0' + d else b'a' + (d - 10)

-- The last `w` digits of `n` in base 16.
unfoldable pub hex : ℕ → ℕ → Bytes
hex zero n = []
hex (suc w) n = hex w (n / 16) ++ hex_digit (n % 16) ∷ []

-- The key of index `i`, with the random 32-bit number that it may end in.
unfoldable pub sample_key : Bytes → ℕ → ℕ → Bytes
unfolding hex
sample_key prefix i draw =
    let k = i % 8 in
    let random = λ (name : Bytes). prefix ++ (name ++ hex 8 draw) in
    if k == 0
    then random (codes ":session:")
    else if k == 1
    then prefix ++ (codes ":user:usr_" ++ (format_nat (100000 + i % 900000) ++ codes ":profile"))
    else if k == 2
    then prefix ++ (codes ":cache:product:prod_" ++ format_nat (1000 + i % 9000))
    else if k == 3
    then random (codes ":cache:category:")
    else if k == 4
    then random (codes ":cache:api:")
    else if k == 5
    then random (codes ":ratelimit:")
    else if k == 6
    then random (codes ":feature:")
    else random (codes ":lb:sticky:")

sample_keys_from : Bytes → (ℕ → ℕ) → ℕ → ℕ → List Bytes
sample_keys_from prefix draws i zero = []
sample_keys_from prefix draws i (suc n) =
    sample_key prefix i (draws i) ∷ sample_keys_from prefix draws (i + 1) n

-- `draws i` is what `rng.Uint32()` gives for the key of index `i`, if it is called.
unfoldable pub build_sample_keys : Bytes → ℕ → (ℕ → ℕ) → List Bytes
unfolding sample_key sample_keys_from
build_sample_keys prefix count draws = sample_keys_from prefix draws 0 count
