-- ===== src/Controller/Converge/Elections.antt =====
-- The rest of a tick behind the probes, for a set that has a master or has missed it long enough.
use redis_replication_contro.Base.{◌≡◌, ◌≢◌, ◌⊎◌, inl, inr, Bool, List, [], ◌∷◌}
use redis_replication_contro.Base.Int.{◌≤ℤ◌}
use redis_replication_contro.Base.Bytes.{Bytes}
use redis_replication_contro.Kube.Pods.{Pod}
use redis_replication_contro.Config.{Config}
use redis_replication_contro.Controller.Select.{PodInfo}
use redis_replication_contro.Controller.Sets.{SetState}
use redis_replication_contro.Controller.World.{Trace, Env}
use redis_replication_contro.Controller.Reconcile.{masters_of, replicas_of, with_masters}
use redis_replication_contro.Controller.Reconcile.Waits.{elapsed}
use redis_replication_contro.Controller.Converge.{AllObey, master_after}
use redis_replication_contro.Controller.Converge.Among.{Found}
use redis_replication_contro.Controller.Converge.Ends.{Elects, single, several}
use redis_replication_contro.Controller.Converge.Lost.{all_replicas, none_up}

module _ (cfg : Config) (env : Env) (initial : Bytes → Bool) (labels : Bytes → Bytes → Bytes)
    (pods : List Pod) (reached : List PodInfo) (t : Trace) where
  -- A master was reached, or the threshold has passed.
  abbrev pub Due : SetState → Type 0
  Due st =
      (masters_of reached ≢ [])
      ⊎ (cfg.master_failure_threshold ≤ℤ elapsed env st.master_missing_at t)

  pub with_masters-Elects :
      (st : SetState) (masters : List PodInfo)
      → AllObey cfg env reached
      → Found cfg pods (master_after initial t) reached
      → reached ≢ []
      → Due st
      → masters_of reached ≡ masters
      → Elects cfg env initial labels pods reached t
          (with_masters cfg pods (replicas_of reached) st masters env t)
  with_masters-Elects st [] all f some_up (inl one) e = absurd (one e)
  with_masters-Elects st [] all f some_up (inr waited) e =
      unfold with_masters in
      none_up cfg env initial labels pods reached t st.master_missing_at st.failover_epoch all f e
        (all_replicas reached e some_up) waited
  with_masters-Elects st (m ∷ []) all f some_up h e =
      single cfg env initial labels pods reached t m st (replicas_of reached) f e
  with_masters-Elects st (m ∷ n ∷ ms) all f some_up h e =
      several cfg env initial labels pods reached t m n ms st (replicas_of reached) all f e
