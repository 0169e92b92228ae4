-- ===== src/Controller/Run/Readiness.antt =====
-- What the readiness probe sees of the loop.
use redis_replication_contro.Base.{
  ℕ, zero, suc, ◌+◌, ◌*◌, ◌^◌, ◌<◌, ltb, ◌≡◌, refl, ap, ◌∙◌, true, List, arith,
}
use redis_replication_contro.Base.Int.{pos, sub_ℕ, wrap64_of_fits, ltb_ℤ}
use redis_replication_contro.Base.Result.{ok, err}
use redis_replication_contro.Kube.Pods.{Pod, ListError, list_redis_pods}
use redis_replication_contro.Config.{Config}
use redis_replication_contro.Controller.Sets.{Sets}
use redis_replication_contro.Controller.World.{Trace, Env}
use redis_replication_contro.Controller.Reconcile.{reconcile, reconcile_pods}
use redis_replication_contro.Controller.Run.{
  Controller, triple, ready, start, after_reconcile, tick, ticks, run,
}

in_time : (t s i : ℕ) → 3 * i < 2 ^ 63 → ltb_ℤ (sub_ℕ t s) (triple (pos i)) ≡ ltb t (s + 3 * i)
in_time t s i fits = ground (arith, wrap64_of_fits (pos (3 * i)))

ready_started :
    (cfg : Config) (c : Controller) (i moment : ℕ)
    → c.started ≡ true
    → cfg.reconcile_interval ≡ pos i
    → 3 * i < 2 ^ 63
    → ready cfg c moment ≡ ltb moment (c.last_reconcile_at + 3 * i)
unfolding ready
ready_started cfg c i moment on e fits = rw (on, e) (in_time moment c.last_reconcile_at i fits)

module _ (cfg : Config) (env : Env) where
  -- The listing of the pods fails at every moment.
  abbrev pub ListingFails : Type 0
  ListingFails =
      (t : Trace)
      → (e : ListError) × (list_redis_pods (env.listing t) cfg.redis_namespaces
            cfg.redis_pod_label_selector
          ≡ err e)

  tick_fails : (c : Controller) (t : Trace) → ListingFails → (tick cfg c env t).0 ≡ c
  unfolding tick reconcile reconcile_pods after_reconcile
  tick_fails c t fails = let (e, h) = fails t in rw h refl

  ticks_fail : (n : ℕ) (c : Controller) (t : Trace) → ListingFails → (ticks cfg n c env t).0 ≡ c
  unfolding ticks
  ticks_fail zero c t fails = refl
  ticks_fail (suc n) c t fails =
      ticks_fail n (tick cfg c env t).0 (tick cfg c env t).1 fails ∙ tick_fails c t fails

  tick_succeeds :
      (c : Controller) (pods : List Pod) (t : Trace)
      → list_redis_pods (env.listing t) cfg.redis_namespaces cfg.redis_pod_label_selector ≡ ok pods
      → (sets : Sets) × ((tick cfg c env t).0
          ≡ record c { sets = sets; last_reconcile_at = env.time (reconcile cfg c.sets env t).1 })
  unfolding tick reconcile reconcile_pods after_reconcile
  tick_succeeds c pods t found = ((tick cfg c env t).0.sets, rw found refl)

  -- If every listing fails, a loop that has started is ready for exactly three intervals from its start,
  -- however many ticks it makes. Condition: three intervals fit in a 64-bit duration.
  pub ready-run_fails :
      (n i : ℕ) (c : Controller) (t : Trace) (moment : ℕ)
      → cfg.reconcile_interval ≡ pos i
      → 3 * i < 2 ^ 63
      → ListingFails
      → ready cfg (run cfg n c env t).0 moment ≡ ltb moment (env.time t + 3 * i)
  unfolding run start
  ready-run_fails n i c t moment e fits fails =
      let c' : Controller = record {
        sets = c.sets;
        started = true;
        last_reconcile_at = env.time t;
      } in
      ap (λ x. ready cfg x moment) (ticks_fail n c' _ fails)
      ∙ ready_started cfg c' i moment refl e fits

  -- A tick whose listing succeeds makes the loop ready for exactly three intervals from its end, whatever
  -- happened in the sets: the error of a set does not count. Conditions: the controller has started, and
  -- three intervals fit in a 64-bit duration.
  pub ready-tick :
      (i : ℕ) (c : Controller) (pods : List Pod) (t : Trace) (moment : ℕ)
      → c.started ≡ true
      → cfg.reconcile_interval ≡ pos i
      → 3 * i < 2 ^ 63
      → list_redis_pods (env.listing t) cfg.redis_namespaces cfg.redis_pod_label_selector ≡ ok pods
      → ready cfg (tick cfg c env t).0 moment
        ≡ ltb moment (env.time (reconcile cfg c.sets env t).1 + 3 * i)
  ready-tick i c pods t moment on e fits found =
      let (sets, done) = tick_succeeds c pods t found in
      ap (λ x. ready cfg x moment) done ∙ ready_started cfg _ i moment on e fits
