-- ===== src/Controller/Reconcile/Outcomes.antt =====
-- What a tick makes of the state of a set.
use mathlib.Core.Path.{subst}
use redis_replication_contro.Controller.Select.Failover.{select_failover_candidate-IsChoice}
use redis_replication_contro.Base.{
  ℕ, ◌≡◌, ◌≢◌, refl, sym, ap, ◌∙◌, Bool, true, false, ◌⊎◌, inl, inr, Option, none, some, List, [],
  ◌∷◌, arith, Bool-cases, if◌then◌else◌,
}
use redis_replication_contro.Base.Int.{ℤ, sub_ℕ, ltb_ℤ, ◌≤ℤ◌, ◌<ℤ◌}
use redis_replication_contro.Base.Result.{Result, ok, err}
use redis_replication_contro.Kube.Pods.{Pod}
use redis_replication_contro.Config.{Config}
use redis_replication_contro.Controller.Select.{PodInfo, select_failover_candidate}
use redis_replication_contro.Controller.Sets.{SetState}
use redis_replication_contro.Controller.World.{clock, call, dial, Trace, Env, ◌>>=◌, pure}
use redis_replication_contro.Controller.Failover.{
  ControllerError, address, next_epoch, failover, failover_to, promoted, promote_connected, promote,
}
use redis_replication_contro.Controller.Failover.Promotes.{failover-epoch}
use redis_replication_contro.Controller.Reconcile.{
  Outcome, masters_of, replicas_of, after_failover, missing_since, no_master, with_masters,
  reconcile_set,
}
use redis_replication_contro.Controller.Reconcile.Waits.{elapsed, reached_by, probed_by}

-- Since when the master is missing: the recorded moment, or now.
abbrev pub since : Env → Option ℕ → Trace → ℕ
since env (some moment) t = moment
since env none t = env.time t

-- The readings of the clock before the decision.
abbrev pub readings : Option ℕ → Trace → Trace
readings (some moment) t = clock ∷ t
readings none t = clock ∷ clock ∷ t

abbrev pub still_missing : Env → SetState → Trace → SetState
still_missing env st t = record st { master_missing_at = some (since env st.master_missing_at t) }

-- A failover that was due after the events `t`, with its result: without replicas nothing happens, else
-- the next epoch is used up, and either the promotion succeeds and the moment is forgotten, or it fails
-- with an error and the moment is kept.
abbrev pub FailsOver : List Pod → List PodInfo → SetState → Trace → Outcome × Trace → Type 0
FailsOver pods replicas st t r =
    ((replicas ≡ []) × (r ≡ ((ok tt, st), t)))
    ⊎ ((replicas ≢ [])
        × (r.0.1.failover_epoch ≡ next_epoch pods st)
        × (((r.0.0 ≡ ok tt) × (r.0.1.master_missing_at ≡ none))
            ⊎ ((e : ControllerError) × (r.0.0 ≡ err e)
                × (r.0.1.master_missing_at ≡ st.master_missing_at))))

after_failover-epoch :
    (pods : List Pod) (env : Env) (r : Result ControllerError (Option PodInfo) × SetState)
    (t : Trace)
    → (after_failover pods r env t).0.1.failover_epoch ≡ r.1.failover_epoch
unfolding after_failover
after_failover-epoch pods env (err e, st) t = refl
after_failover-epoch pods env (ok none, st) t = refl
after_failover-epoch pods env (ok (some m), st) t = refl

-- The result of a failover with its new state: a promoted pod, or an error.
abbrev Concludes : List Pod → SetState → Result ControllerError (Option PodInfo) × SetState → Type 0
Concludes pods st r =
    (r.1 ≡ record st { failover_epoch = next_epoch pods st })
    × (((b : PodInfo) × (r.0 ≡ ok (some b))) ⊎ ((e : ControllerError) × (r.0 ≡ err e)))

promoted-cases :
    (cfg : Config) (env : Env) (b : PodInfo) (epoch : ℤ) (rs : List PodInfo) (done : Bool)
    (t : Trace)
    → let r = (promoted cfg b epoch rs done env t).0 in
      ((b : PodInfo) × (r ≡ ok (some b))) ⊎ ((e : ControllerError) × (r ≡ err e))
unfolding promoted
promoted-cases cfg env b epoch rs true t = inl (b, refl)
promoted-cases cfg env b epoch rs false t = inr (_, refl)

connected-cases :
    (cfg : Config) (env : Env) (b : PodInfo) (epoch : ℤ) (rs : List PodInfo) (up : Bool) (t : Trace)
    → let r = (promote_connected cfg b epoch rs up env t).0 in
      ((b : PodInfo) × (r ≡ ok (some b))) ⊎ ((e : ControllerError) × (r ≡ err e))
unfolding promote_connected
connected-cases cfg env b epoch rs true t = promoted-cases cfg env b epoch rs _ _
connected-cases cfg env b epoch rs false t = inr (_, refl)

failover_to-Concludes :
    (cfg : Config) (env : Env) (pods : List Pod) (rs : List PodInfo) (st : SetState) (b : PodInfo)
    (t : Trace)
    → Concludes pods st (failover_to cfg pods rs st (some b) env t).0
unfolding failover_to promote
failover_to-Concludes cfg env pods rs st b t =
    let up = call (dial (address b.pod.ip cfg.redis_port)) env t in
    (refl, connected-cases cfg env b (next_epoch pods st) rs up.0 up.1)

failover-Concludes :
    (cfg : Config) (env : Env) (pods : List Pod) (r : PodInfo) (rs : List PodInfo) (st : SetState)
    (t : Trace)
    → Concludes pods st (failover cfg pods (r ∷ rs) st env t).0
unfolding failover
failover-Concludes cfg env pods r rs st t =
    let (b, e, _) = select_failover_candidate-IsChoice (r ∷ rs) (λ x. cc) in
    subst (λ o. Concludes pods st (failover_to cfg pods (r ∷ rs) st o env t).0) (sym e)
      (failover_to-Concludes cfg env pods (r ∷ rs) st b t)

after_failover-result :
    (pods : List Pod) (env : Env) (st : SetState)
    (r : Result ControllerError (Option PodInfo) × SetState) (t : Trace)
    → Concludes pods st r
    → let x = (after_failover pods r env t).0 in
      ((x.0 ≡ ok tt) × (x.1.master_missing_at ≡ none))
      ⊎ ((e : ControllerError) × (x.0 ≡ err e) × (x.1.master_missing_at ≡ st.master_missing_at))
unfolding after_failover
after_failover-result pods env st (err e, st') t (h, c) =
    inr (e, refl, ap (λ s. s.master_missing_at) h)
after_failover-result pods env st (ok (some m), st') t h = inl (refl, refl)
after_failover-result pods env st (ok none, st') t (h, inl (b, e)) = absurd (cc)
after_failover-result pods env st (ok none, st') t (h, inr (b, e)) = absurd (cc)

failover-FailsOver :
    (cfg : Config) (env : Env) (pods : List Pod) (replicas : List PodInfo) (st : SetState)
    (t : Trace)
    → FailsOver pods replicas st t ((failover cfg pods replicas st >>= after_failover pods) env t)
failover-FailsOver cfg env pods [] st t =
    inl (refl, unfold failover failover_to select_failover_candidate after_failover in refl)
failover-FailsOver cfg env pods (r ∷ rs) st t = inr (
  (λ x. cc),
  after_failover-epoch pods env (failover cfg pods (r ∷ rs) st env t).0 _
      ∙ failover-epoch cfg env pods r rs st t,
  after_failover-result pods env st (failover cfg pods (r ∷ rs) st env t).0 _
      (failover-Concludes cfg env pods r rs st t),
)

-- The state with the missing moment forgotten.
abbrev pub present : SetState → SetState
present st = record { master_missing_at = none; failover_epoch = st.failover_epoch }

-- What no master leads to after the events `t`: the moment is kept, and either the threshold has not
-- passed and nothing is done, or it has passed and a failover follows.
abbrev pub Misses :
    Config → Env → List Pod → List PodInfo → SetState → Trace → Outcome × Trace → Type 0
Misses cfg env pods replicas st t r =
    ((elapsed env st.master_missing_at t <ℤ cfg.master_failure_threshold)
      × (r ≡ ((ok tt, still_missing env st t), readings st.master_missing_at t)))
    ⊎ ((cfg.master_failure_threshold ≤ℤ elapsed env st.master_missing_at t)
        × FailsOver pods replicas (still_missing env st t) (readings st.master_missing_at t) r)

due_cases :
    (cfg : Config) (env : Env) (pods : List Pod) (replicas : List PodInfo) (st : SetState) (e : ℤ)
    (t : Trace)
    → let m =
        (if ltb_ℤ e cfg.master_failure_threshold
          then pure (ok tt, st)
          else (failover cfg pods replicas st >>= after_failover pods)) in
      ((e <ℤ cfg.master_failure_threshold) × (m env t ≡ ((ok tt, st), t)))
      ⊎ ((cfg.master_failure_threshold ≤ℤ e) × FailsOver pods replicas st t (m env t))
due_cases cfg env pods replicas st e t = elim (Bool-cases (ltb_ℤ e cfg.master_failure_threshold)) [
  | inl h ↦ inl (ground arith, rw h refl)
  | inr h ↦ inr (ground arith, rw h (failover-FailsOver cfg env pods replicas st t))
]

no_master-Misses :
    (cfg : Config) (env : Env) (pods : List Pod) (replicas : List PodInfo) (missing : Option ℕ)
    (epoch : ℤ) (t : Trace)
    → let st : SetState = record { master_missing_at = missing; failover_epoch = epoch } in
      Misses cfg env pods replicas st t (no_master cfg pods replicas st env t)
unfolding no_master missing_since
no_master-Misses cfg env pods replicas none epoch t =
    due_cases cfg env pods replicas
      (record { master_missing_at = some (env.time t); failover_epoch = epoch })
      (sub_ℕ (env.time (clock ∷ t)) (env.time t)) (clock ∷ clock ∷ t)
no_master-Misses cfg env pods replicas (some moment) epoch t =
    due_cases cfg env pods replicas
      (record { master_missing_at = some moment; failover_epoch = epoch })
      (sub_ℕ (env.time t) moment) (clock ∷ t)

with_masters-cases :
    (cfg : Config) (env : Env) (pods : List Pod) (replicas : List PodInfo) (st : SetState)
    (masters : List PodInfo) (t : Trace)
    → let r = with_masters cfg pods replicas st masters env t in
      ((masters ≢ []) × (r.0 ≡ (ok tt, present st)))
      ⊎ ((masters ≡ []) × Misses cfg env pods replicas st t r)
unfolding with_masters
with_masters-cases cfg env pods replicas st [] t =
    inr (refl, no_master-Misses cfg env pods replicas st.master_missing_at st.failover_epoch t)
with_masters-cases cfg env pods replicas st (m ∷ []) t = inl (λ x. cc, refl)
with_masters-cases cfg env pods replicas st (m ∷ n ∷ ms) t = inl (λ x. cc, refl)

-- The outcome of a tick for one set, by what the probes found. With a master the tick succeeds, the
-- moment at which the master went missing is forgotten, and the epoch stays. Without one the moment is
-- kept, or set to now. Before the threshold the tick succeeds and nothing but the clock is touched; from
-- it on, nothing is done if no replica was reached, and else a failover uses up the next epoch: either it succeeds and the moment is forgotten, or
-- the tick fails with its error and the moment is kept.
pub reconcile_set-outcome :
    (cfg : Config) (env : Env) (pods : List Pod) (st : SetState) (t : Trace)
    → let reached = reached_by cfg env pods t in
      let r = reconcile_set cfg pods st env t in
      ((masters_of reached ≢ []) × (r.0 ≡ (ok tt, present st)))
      ⊎ ((masters_of reached ≡ [])
          × Misses cfg env pods (replicas_of reached) st (probed_by cfg env pods t) r)
unfolding reconcile_set
reconcile_set-outcome cfg env pods st t =
    let reached = reached_by cfg env pods t in
    with_masters-cases cfg env pods (replicas_of reached) st (masters_of reached)
      (probed_by cfg env pods t)
