-- ===== src/Tools/DataLoader/Settings.antt =====
-- The environment of tools/data-loader/main.go. Its `env`, `envDur` and `envInt` are the text of
-- tools/failover-probe/main.go, and are those functions here.
use redis_replication_contro.Base.{◌*◌, ◌^◌, Option}
use redis_replication_contro.Base.Int.{ℤ, pos}
use redis_replication_contro.Base.Bytes.{Bytes, codes}
use redis_replication_contro.Config.Env.{Env}
use redis_replication_contro.Tools.FailoverProbe.Settings

env : Env → Bytes → Bytes → Bytes
env vars key def = Settings.env vars key def

env_dur : (Bytes → Option ℤ) → Env → Bytes → ℤ → ℤ
env_dur parse_duration vars key def = Settings.env_dur parse_duration vars key def

env_int : Env → Bytes → ℤ → ℤ
env_int vars key def = Settings.env_int vars key def

pub record LoaderConfig : Type 0 where
  pub addr : Bytes
  pub dial_timeout : ℤ
  pub cmd_timeout : ℤ
  pub target_gb : ℤ
  pub batch_size : ℤ
  pub key_prefix : Bytes

unfoldable load_config : (Bytes → Option ℤ) → Env → LoaderConfig
unfolding env env_dur env_int
load_config parse_duration vars = record {
  addr =
      env vars (codes "TARGET_ADDR")
        (codes "redis-write-cache.redis-test-enes.svc.cluster.local:6379");
  dial_timeout = env_dur parse_duration vars (codes "DIAL_TIMEOUT") (pos (5 * 10 ^ 9));
  cmd_timeout = env_dur parse_duration vars (codes "CMD_TIMEOUT") (pos (5 * 10 ^ 9));
  target_gb = env_int vars (codes "TARGET_GB") (pos 10);
  batch_size = env_int vars (codes "BATCH_SIZE") (pos 500);
  key_prefix = env vars (codes "KEY_PREFIX") (codes "ld");
}
