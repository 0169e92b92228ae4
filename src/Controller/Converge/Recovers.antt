-- ===== src/Controller/Converge/Recovers.antt =====
-- The ticks of one set, one after the other, from the loss of its master on.
use mathlib.Core.Path.{subst}
use redis_replication_contro.Base.{
  ℕ, ◌≡◌, ◌≢◌, ◌⊎◌, refl, sym, ap, ◌∙◌, inl, inr, Bool, Option, none, some, List, [], ◌∷◌, All,
  All-In, All-of_In,
}
use redis_replication_contro.Base.Int.{sub_ℕ, ◌≤ℤ◌}
use redis_replication_contro.Base.Bytes.{Bytes}
use redis_replication_contro.Kube.Pods.{Pod}
use redis_replication_contro.Config.{Config}
use redis_replication_contro.Controller.Sets.{SetState}
use redis_replication_contro.Controller.World.{Trace, Env, Action, ◌>>=◌, pure}
use redis_replication_contro.Controller.Reconcile.{reconcile_set}
use redis_replication_contro.Controller.Reconcile.Waits.{probed_by, elapsed}
use redis_replication_contro.Controller.Reconcile.Outcomes.{since, readings, reconcile_set-outcome}
use redis_replication_contro.Controller.Converge.{Outages, master_after, Reports}
use redis_replication_contro.Controller.Converge.Roles.{master_after-probe}
use redis_replication_contro.Controller.Converge.Nodes.{
  Node, IsListing, HasOne, HasNone, one_found, none_found, tick-HasOne,
}

-- A tick of the set for each listing of its pods.
unfoldable pub visits : Config → List (List Pod) → SetState → Action SetState
visits cfg [] st = pure st
visits cfg (pods ∷ rest) st = reconcile_set cfg pods st >>= λ r. visits cfg rest r.1

module _ (cfg : Config) (env : Env) (initial : Bytes → Bool) (v : List Node) (cut : Outages env)
    (reports : Reports initial env) (some_up : v ≢ []) where
  -- After the events `t` the set has one master, or it has none since the recorded moment.
  abbrev Waits : ℕ → SetState → Trace → Type 0
  Waits moment st t =
      HasOne cfg env initial v t
      ⊎ (HasNone cfg env initial v t × (st.master_missing_at ≡ some moment))

  master_after-readings :
      (missing : Option ℕ) (a : Bytes) (t : Trace)
      → master_after initial (readings missing t) a ≡ master_after initial t a
  master_after-readings none a t = refl
  master_after-readings (some moment) a t = refl

  -- A tick that does nothing but read the clock.
  idle-HasNone :
      (pods : List Pod) (missing : Option ℕ) (t t' : Trace)
      → HasNone cfg env initial v t
      → t' ≡ readings missing (probed_by cfg env pods t)
      → HasNone cfg env initial v t'
  idle-HasNone pods missing t t' h e = All-of_In _ v (λ x m.
      ap (λ u. master_after initial u x.1) e
      ∙ master_after-readings missing x.1 (probed_by cfg env pods t)
      ∙ master_after-probe cfg env initial x.1 pods t
      ∙ All-In _ v x h m)

  -- A tick without a master.
  none-Waits :
      (pods : List Pod) (st : SetState) (t : Trace)
      → IsListing cfg env cut v pods
      → HasNone cfg env initial v t
      → let r = reconcile_set cfg pods st env t in
        Waits (since env st.master_missing_at (probed_by cfg env pods t)) r.0.1 r.1
  none-Waits pods st t lists h = elim (reconcile_set-outcome cfg env pods st t) [
    | inl (found, x) ↦ absurd (found (none_found cfg env initial v cut pods lists reports t h))
    | inr (gone, inl (below, e)) ↦ inr (
      idle-HasNone pods st.master_missing_at t _ h (ap (λ r. r.1) e),
      ap (λ r. r.0.1.master_missing_at) e,
    )
    | inr (gone, inr (past, x)) ↦
        inl (tick-HasOne cfg env initial v cut pods lists reports st t some_up (inr past))
  ]

  one-HasOne :
      (pods : List Pod) (st : SetState) (t : Trace)
      → IsListing cfg env cut v pods
      → HasOne cfg env initial v t
      → HasOne cfg env initial v (reconcile_set cfg pods st env t).1
  one-HasOne pods st t lists h =
      tick-HasOne cfg env initial v cut pods lists reports st t some_up
        (inl (one_found cfg env initial v cut pods lists reports t h))

  step-Waits :
      (moment : ℕ) (pods : List Pod) (st : SetState) (t : Trace)
      → IsListing cfg env cut v pods
      → Waits moment st t
      → let r = reconcile_set cfg pods st env t in Waits moment r.0.1 r.1
  step-Waits moment pods st t lists (inl h) = inl (one-HasOne pods st t lists h)
  step-Waits moment pods st t lists (inr (h, e)) =
      let r = reconcile_set cfg pods st env t in
      subst (λ o. Waits (since env o (probed_by cfg env pods t)) r.0.1 r.1) e
        (none-Waits pods st t lists h)

  visits-Waits :
      (moment : ℕ) (listings : List (List Pod)) (st : SetState) (t : Trace)
      → All (IsListing cfg env cut v) listings
      → Waits moment st t
      → let r = visits cfg listings st env t in Waits moment r.0 r.1
  unfolding visits
  visits-Waits moment [] st t lists h = h
  visits-Waits moment (pods ∷ rest) st t (l, lists) h =
      let r = reconcile_set cfg pods st env t in
      visits-Waits moment rest r.0.1 r.1 lists (step-Waits moment pods st t l h)

  visits-HasOne :
      (listings : List (List Pod)) (st : SetState) (t : Trace)
      → All (IsListing cfg env cut v) listings
      → HasOne cfg env initial v t
      → HasOne cfg env initial v (visits cfg listings st env t).1
  unfolding visits
  visits-HasOne [] st t lists h = h
  visits-HasOne (pods ∷ rest) st t (l, lists) h =
      let r = reconcile_set cfg pods st env t in
      visits-HasOne rest r.0.1 r.1 lists (one-HasOne pods st t l h)

  due-HasOne :
      (moment : ℕ) (pods : List Pod) (st : SetState) (t : Trace)
      → IsListing cfg env cut v pods
      → Waits moment st t
      → cfg.master_failure_threshold ≤ℤ sub_ℕ (env.time (probed_by cfg env pods t)) moment
      → HasOne cfg env initial v (reconcile_set cfg pods st env t).1
  due-HasOne moment pods st t lists (inl h) waited = one-HasOne pods st t lists h
  due-HasOne moment pods st t lists (inr (h, e)) waited =
      tick-HasOne cfg env initial v cut pods lists reports st t some_up (
        inr (
          subst (λ o. cfg.master_failure_threshold ≤ℤ elapsed env o (probed_by cfg env pods t))
            (sym e) waited))

-- A lost master is replaced. Conditions: which addresses are up does not change, and the instances that are
-- up do as they are told; `INFO` reports the roles that the commands so far left; the ticks find the same
-- pods up, of different names and addresses, which answer always; there is at least one, at first none of
-- them is a master, and the set's state says that its master is there. `moment` is the reading of the
-- clock at which the first tick notes the loss. Then behind a later tick which reads the clock at least the
-- failure threshold after that moment, and behind every tick after it, exactly one of the pods that are up
-- is a master, whatever labels and annotations the listings show and however many ticks came in between.
pub visits-HasOne_in_time :
    (cfg : Config) (env : Env) (initial : Bytes → Bool) (v : List Node) (first last : List Pod)
    (between after : List (List Pod)) (st : SetState) (t : Trace) (cut : Outages env)
    → Reports initial env
    → v ≢ []
    → All (IsListing cfg env cut v) (first ∷ last ∷ between)
    → All (IsListing cfg env cut v) after
    → HasNone cfg env initial v t
    → st.master_missing_at ≡ none
    → let moment = env.time (probed_by cfg env first t) in
      let (st', t') = visits cfg (first ∷ between) st env t in
      cfg.master_failure_threshold ≤ℤ sub_ℕ (env.time (probed_by cfg env last t')) moment
      → HasOne cfg env initial v (visits cfg (last ∷ after) st' env t').1
unfolding visits
visits-HasOne_in_time cfg env initial v first last between after st t cut reports some_up
      (l, (l', lists)) later h e waited =
    let r = reconcile_set cfg first st env t in
    let moment = env.time (probed_by cfg env first t) in
    let noted =
      subst
        (λ o.
          Waits cfg env initial v cut reports some_up (since env o (probed_by cfg env first t))
            r.0.1 r.1)
        e (none-Waits cfg env initial v cut reports some_up first st t l h) in
    let w =
      visits-Waits cfg env initial v cut reports some_up moment between r.0.1 r.1 lists noted in
    let (st', t') = visits cfg between r.0.1 env r.1 in
    visits-HasOne cfg env initial v cut reports some_up after
      (reconcile_set cfg last st' env t').0.1 (reconcile_set cfg last st' env t').1 later
      (due-HasOne cfg env initial v cut reports some_up moment last st' t' l' w waited)
