-- ===== src/Controller/Failover/Promotes.antt =====
-- The epochs that `failover` uses.
use mathlib.Core.Path.{subst, sym}
use redis_replication_contro.Base.{◌≡◌, refl, some, List, ◌∷◌, arith, In}
use redis_replication_contro.Base.Int.{ℤ, pos, negsuc, IsInt64, ◌≤ℤ◌, ◌<ℤ◌, max_int64, wrap64}
use redis_replication_contro.Strconv.{format_int}
use redis_replication_contro.Kube.Pods.{Pod, get}
use redis_replication_contro.Config.{Config, annotation_failover_epoch}
use redis_replication_contro.Controller.Select.{PodInfo}
use redis_replication_contro.Controller.Select.Failover.{select_failover_candidate-IsChoice}
use redis_replication_contro.Controller.Sets.{SetState, new_state, max_epoch, epoch_of}
use redis_replication_contro.Controller.Sets.Epochs.{max_epoch-Bounds, epoch_of-format_int}
use redis_replication_contro.Controller.World.{Env, Trace}
use redis_replication_contro.Controller.Failover.{succ, next_epoch, failover, failover_to}

wrap64-succ : (z : ℤ) → pos 0 ≤ℤ z → z <ℤ max_int64 → z <ℤ wrap64 (succ z)
unfolding wrap64
wrap64-succ (pos n) h lt = ground arith
wrap64-succ (negsuc n) h lt = absurd (omega arith)

-- The next epoch is above every epoch that a pod records and above the last one of this process.
-- Conditions: this process's last epoch is not negative, and neither it nor the recorded maximum is
-- already the greatest 64-bit integer.
pub next_epoch-above :
    (pods : List Pod) (st : SetState)
    → pos 0 ≤ℤ st.failover_epoch
    → st.failover_epoch <ℤ max_int64
    → max_epoch pods <ℤ max_int64
    → (st.failover_epoch <ℤ next_epoch pods st)
      × ((p : Pod) (n : ℤ) → In p pods → epoch_of p ≡ some n → n <ℤ next_epoch pods st)
unfolding next_epoch
next_epoch-above pods st low top room =
    let b = max_epoch-Bounds pods in
    let up = wrap64-succ (max_epoch pods) b.nonneg room in
    let up' = wrap64-succ st.failover_epoch low top in
    (ground arith, λ p n m e. let le = b.above p n m e in ground arith)

-- After a restart (with no state) the next epoch is above the one that a promotion wrote on a pod in
-- decimal. Conditions: that epoch is a 64-bit integer, and the recorded maximum is not the greatest one.
pub next_epoch_after_restart :
    (pods : List Pod) (p : Pod) (epoch : ℤ)
    → In p pods
    → get p.annotations annotation_failover_epoch ≡ format_int epoch
    → IsInt64 epoch
    → max_epoch pods <ℤ max_int64
    → epoch <ℤ next_epoch pods new_state
next_epoch_after_restart pods p epoch m e fits room =
    (next_epoch-above pods new_state (omega arith) (omega arith) room).1 p epoch m
      (epoch_of-format_int p epoch e fits)

failover_to-epoch :
    (cfg : Config) (env : Env) (pods : List Pod) (replicas : List PodInfo) (st : SetState)
    (b : PodInfo) (t : Trace)
    → (failover_to cfg pods replicas st (some b) env t).0.1.failover_epoch ≡ next_epoch pods st
unfolding failover_to
failover_to-epoch cfg env pods replicas st b t = refl

-- A failover with a replica to promote uses up the next epoch, also when the promotion then fails.
pub failover-epoch :
    (cfg : Config) (env : Env) (pods : List Pod) (r : PodInfo) (rs : List PodInfo) (st : SetState)
    (t : Trace)
    → (failover cfg pods (r ∷ rs) st env t).0.1.failover_epoch ≡ next_epoch pods st
unfolding failover
failover-epoch cfg env pods r rs st t =
    let (b, e, _) = select_failover_candidate-IsChoice (r ∷ rs) (λ x. cc) in
    subst (λ o. (failover_to cfg pods (r ∷ rs) st o env t).0.1.failover_epoch ≡ next_epoch pods st)
      (sym e) (failover_to-epoch cfg env pods (r ∷ rs) st b t)
