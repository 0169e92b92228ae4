-- ===== src/Config/Env.antt =====
-- `getEnv`, `getEnvInt`, `getEnvSeconds`, `getEnvBool`. The environment is a function: `none` is an
-- unset variable.
use redis_replication_contro.Base.{
  ◌*◌, ◌^◌, Bool, true, false, ◌||◌, Option, none, some, [], ◌∷◌, if◌then◌else◌,
}
use redis_replication_contro.Base.Int.{ℤ, pos, negsuc, wrap64}
use redis_replication_contro.Base.Result.{Result, ok, err, ◌>>=◌}
use redis_replication_contro.Base.Bytes.{Bytes, codes, bytes_eq, trim_space}
use redis_replication_contro.Strconv.{atoi}
use redis_replication_contro.Config.{ConfigError, invalid_integer, negative, invalid_boolean}

abbrev pub Env : Type 0
Env = Bytes → Option Bytes

or_default : Option Bytes → Bytes → Bytes
or_default none def = def
or_default (some []) def = def
or_default (some (c ∷ v)) def = c ∷ v

unfoldable pub get_env : Env → Bytes → Bytes → Bytes
unfolding or_default
get_env env key def = or_default (env key) def

unfoldable pub default_controller_id : Option Bytes → Bytes
unfolding or_default
default_controller_id hostname = or_default hostname (codes "redis-replication-controller")

parsed_int : Bytes → Option ℤ → Result ConfigError ℤ
parsed_int key none = err (invalid_integer key)
parsed_int key (some n) = ok n

int_or : Bytes → Option Bytes → ℤ → Result ConfigError ℤ
unfolding parsed_int
int_or key none def = ok def
int_or key (some []) def = ok def
int_or key (some (c ∷ v)) def = parsed_int key (atoi (trim_space (c ∷ v)))

unfoldable pub get_env_int : Env → Bytes → ℤ → Result ConfigError ℤ
unfolding int_or
get_env_int env key def = int_or key (env key) def

-- `time.Duration(n) * time.Second` is a product of `int64`s.
unfoldable pub seconds : Bytes → ℤ → Result ConfigError ℤ
seconds key (negsuc n) = err (negative key)
seconds key (pos n) = ok (wrap64 (pos (n * 10 ^ 9)))

unfoldable pub get_env_seconds : Env → Bytes → ℤ → Result ConfigError ℤ
unfolding get_env_int seconds
get_env_seconds env key def = get_env_int env key def >>= seconds key

-- strconv.ParseBool
unfoldable pub parse_bool : Bytes → Option Bool
parse_bool s =
    if bytes_eq s (codes "1")
      || bytes_eq s (codes "t")
      || bytes_eq s (codes "T")
      || bytes_eq s (codes "true")
      || bytes_eq s (codes "TRUE")
      || bytes_eq s (codes "True")
    then some true
    else if bytes_eq s (codes "0")
        || bytes_eq s (codes "f")
        || bytes_eq s (codes "F")
        || bytes_eq s (codes "false")
        || bytes_eq s (codes "FALSE")
        || bytes_eq s (codes "False")
    then some false
    else none

parsed_bool : Bytes → Option Bool → Result ConfigError Bool
parsed_bool key none = err (invalid_boolean key)
parsed_bool key (some b) = ok b

bool_or : Bytes → Option Bytes → Bool → Result ConfigError Bool
unfolding parsed_bool
bool_or key none def = ok def
bool_or key (some []) def = ok def
bool_or key (some (c ∷ v)) def = parsed_bool key (parse_bool (trim_space (c ∷ v)))

unfoldable pub get_env_bool : Env → Bytes → Bool → Result ConfigError Bool
unfolding bool_or
get_env_bool env key def = bool_or key (env key) def
