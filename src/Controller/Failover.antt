-- ===== src/Controller/Failover.antt =====
-- `failover` and `replicateOf` of internal/controller/controller.go. A connection is known by its
-- address; `defer conn.Close()` is the `close` event before each return. Errors that are only logged are
-- dropped.
pub mod Promotes
use redis_replication_contro.Base.{
  ℕ, zero, suc, ◌+◌, Bool, true, false, Option, none, some, List, [], ◌∷◌, ◌++◌, if◌then◌else◌,
}
use redis_replication_contro.Base.Int.{ℤ, pos, negsuc, ltb_ℤ, wrap64}
use redis_replication_contro.Base.Result.{Result, ok, err}
use redis_replication_contro.Base.Bytes.{Bytes, bytes_eq}
use redis_replication_contro.Strconv.{format_int}
use redis_replication_contro.Kube.Pods.{Pod, set_annotations}
use redis_replication_contro.Config.{Config, annotation_failover_epoch, annotation_promoted_at}
use redis_replication_contro.Controller.Select.{PodInfo, select_failover_candidate}
use redis_replication_contro.Controller.Sets.{SetState, max_epoch}
use redis_replication_contro.Controller.World.{
  Event, dial, no_one, rewrite, close, replica_of, patch, Action, ◌>>=◌, ◌>>◌, pure, call, ignore,
  time_stamp, when,
}

pub data ControllerError : Type 0 where
  connect_failed command_failed : Bytes → ControllerError

-- fmt.Sprintf("%s:%d", ip, port)
unfoldable pub address : Bytes → ℤ → Bytes
address ip port = ip ++ (b':' ∷ format_int port)

replicated : Config → Pod → Bytes → Bool → Action (Result ControllerError Unit)
replicated cfg pod addr true = do
  when cfg.config_rewrite (ignore (rewrite addr))
  ignore (close addr)
  pure (ok tt)
replicated cfg pod addr false = do ignore (close addr); pure (err (command_failed pod.name))

replicate_connected : Config → Pod → Bytes → Bytes → Bool → Action (Result ControllerError Unit)
unfolding replicated
replicate_connected cfg pod addr master_ip true = do
  done ← call (replica_of addr master_ip cfg.redis_port)
  replicated cfg pod addr done
replicate_connected cfg pod addr master_ip false = pure (err (connect_failed pod.name))

unfoldable pub replicate_of : Config → Pod → Bytes → Action (Result ControllerError Unit)
unfolding replicate_connected
replicate_of cfg pod master_ip = do
  let addr = address pod.ip cfg.redis_port
  connected ← call (dial addr)
  replicate_connected cfg pod addr master_ip connected

-- Points every pod of the list but the named one to the master; used by `failover` for the other
-- replicas and by `reconcileSet` for the extra masters.
unfoldable pub redirect : Config → Bytes → Bytes → List PodInfo → Action Unit
redirect cfg master_name master_ip [] = pure tt
redirect cfg master_name master_ip (r ∷ rs) =
    let skip = redirect cfg master_name master_ip rs in
    let point = replicate_of cfg r.pod master_ip >>= λ _. redirect cfg master_name master_ip rs in
    if bytes_eq r.pod.name master_name then skip else point

abbrev pub succ : ℤ → ℤ
succ (pos n) = pos (n + 1)
succ (negsuc zero) = pos 0
succ (negsuc (suc n)) = negsuc n

-- The next epoch, in 64-bit arithmetic: above what the pods record and above what this process used.
unfoldable pub next_epoch : List Pod → SetState → ℤ
next_epoch pods st =
    let epoch = wrap64 (succ (max_epoch pods)) in
    if ltb_ℤ st.failover_epoch epoch then epoch else wrap64 (succ st.failover_epoch)

-- What follows a successful `REPLICAOF NO ONE`.
unfoldable pub after_promotion : Config → PodInfo → ℤ → List PodInfo → Action Unit
unfolding redirect
after_promotion cfg candidate epoch replicas = do
  let addr = address candidate.pod.ip cfg.redis_port
  when cfg.config_rewrite (ignore (rewrite addr))
  promoted_at ← time_stamp
  ignore (
      patch candidate.pod.namespace candidate.pod.name (
        set_annotations (
          (annotation_failover_epoch, format_int epoch)
          ∷ (annotation_promoted_at, promoted_at)
          ∷ [])))
  redirect cfg candidate.pod.name candidate.pod.ip replicas
  ignore (close addr)

unfoldable pub promoted :
    Config → PodInfo → ℤ → List PodInfo → Bool → Action (Result ControllerError (Option PodInfo))
unfolding after_promotion
promoted cfg candidate epoch replicas true = do
  after_promotion cfg candidate epoch replicas
  pure (ok (some candidate))
promoted cfg candidate epoch replicas false = do
  ignore (close (address candidate.pod.ip cfg.redis_port))
  pure (err (command_failed candidate.pod.name))

unfoldable pub promote_connected :
    Config → PodInfo → ℤ → List PodInfo → Bool → Action (Result ControllerError (Option PodInfo))
unfolding promoted
promote_connected cfg candidate epoch replicas true = do
  done ← call (no_one (address candidate.pod.ip cfg.redis_port))
  promoted cfg candidate epoch replicas done
promote_connected cfg candidate epoch replicas false =
    pure (err (connect_failed candidate.pod.name))

unfoldable pub promote :
    Config → PodInfo → ℤ → List PodInfo → Action (Result ControllerError (Option PodInfo))
unfolding promote_connected
promote cfg candidate epoch replicas = do
  connected ← call (dial (address candidate.pod.ip cfg.redis_port))
  promote_connected cfg candidate epoch replicas connected

unfoldable pub failover_to :
    Config
    → List Pod
    → List PodInfo
    → SetState
    → Option PodInfo
    → Action (Result ControllerError (Option PodInfo) × SetState)
failover_to cfg pods replicas st none = pure (ok none, st)
failover_to cfg pods replicas st (some candidate) = do
  let epoch = next_epoch pods st
  r ← promote cfg candidate epoch replicas
  pure (r, record st { failover_epoch = epoch })

-- The new epoch stays in the set's state when the promotion fails.
unfoldable pub failover :
    Config
    → List Pod
    → List PodInfo
    → SetState
    → Action (Result ControllerError (Option PodInfo) × SetState)
unfolding failover_to
failover cfg pods replicas st =
    failover_to cfg pods replicas st (select_failover_candidate replicas)
