-- ===== src/Controller/Converge/OneMaster.antt =====
-- How many masters a tick leaves.
use redis_replication_contro.Base.{
  ◌≡◌, ◌≢◌, refl, ap, ◌∙◌, ◌⊎◌, inl, Bool, none, List, [], All, All-of_In, All-In,
}
use redis_replication_contro.Base.Int.{◌≤ℤ◌}
use redis_replication_contro.Base.Result.{ok}
use redis_replication_contro.Base.Bytes.{Bytes}
use redis_replication_contro.Kube.Pods.{Pod, role_label}
use redis_replication_contro.Config.{Config}
use redis_replication_contro.Controller.Select.{PodInfo}
use redis_replication_contro.Controller.Sets.{SetState}
use redis_replication_contro.Controller.World.{Trace, Env}
use redis_replication_contro.Controller.Reconcile.{masters_of, wanted_role, reconcile_set}
use redis_replication_contro.Controller.Reconcile.Waits.{elapsed, reached_by, probed_by}
use redis_replication_contro.Controller.Converge.{
  AllObey, master_after, label_after, Reports, OneAddressEach,
}
use redis_replication_contro.Controller.Converge.Roles.{master_after-sync_labels}
use redis_replication_contro.Controller.Converge.Labels.{label_after-probe, sync_labels-wanted}
use redis_replication_contro.Controller.Converge.Seen.{reached_by-IsSeen}
use redis_replication_contro.Controller.Converge.Among.{address_of}
use redis_replication_contro.Controller.Converge.Ends.{IsSoleMaster, Elects}
use redis_replication_contro.Controller.Converge.Elections.{with_masters-Elects}

module _ (cfg : Config) (env : Env) (initial : Bytes → Bool) (labels : Bytes → Bytes → Bytes)
    (pods : List Pod) (st : SetState) (t : Trace) where
  pub tick-Elects :
      AllObey cfg env (reached_by cfg env pods t)
      → Reports initial env
      → OneAddressEach cfg pods
      → reached_by cfg env pods t ≢ []
      → (masters_of (reached_by cfg env pods t) ≢ [])
        ⊎ (cfg.master_failure_threshold
            ≤ℤ elapsed env st.master_missing_at (probed_by cfg env pods t))
      → Elects cfg env initial labels pods
          (reached_by cfg env pods t)
          (probed_by cfg env pods t)
          (reconcile_set cfg pods st env t)
  unfolding reconcile_set
  tick-Elects all reports one some_up h =
      with_masters-Elects cfg env initial labels pods (reached_by cfg env pods t)
        (probed_by cfg env pods t) st (masters_of (reached_by cfg env pods t)) all
        (record { seen = reached_by-IsSeen cfg env initial pods t reports; one = one }) some_up h
        refl

  -- Conditions: the reached pods accept connections and carry out what they are told, `INFO` reports the
  -- roles that the commands so far left, the probed pods' names and addresses go together, the listing
  -- shows the labels that the patches so far left, at least one pod was reached, and either one of the
  -- reached pods is a master or the master has been missing for the failure threshold. The other pods may
  -- be down. Then behind the tick exactly one of the reached pods is a master, the patches leave the label
  -- of every pod of the set "master" for that pod's name and "replica" for all others, the tick succeeds
  -- and the moment at which a master went missing is forgotten.
  pub reconcile_set-one_master :
      AllObey cfg env (reached_by cfg env pods t)
      → Reports initial env
      → OneAddressEach cfg pods
      → All (λ p. label_after labels t p.namespace p.name ≡ role_label p) pods
      → reached_by cfg env pods t ≢ []
      → (masters_of (reached_by cfg env pods t) ≢ [])
        ⊎ (cfg.master_failure_threshold
            ≤ℤ elapsed env st.master_missing_at (probed_by cfg env pods t))
      → let r = reconcile_set cfg pods st env t in
        (r.0.0 ≡ ok tt)
        × (r.0.1.master_missing_at ≡ none)
        × ((b : PodInfo) × IsSoleMaster cfg initial (reached_by cfg env pods t) b r.1
            × All (λ p. label_after labels r.1 p.namespace p.name ≡ wanted_role b.pod.name p) pods)
  reconcile_set-one_master all reports one shown some_up h =
      let x = tick-Elects all reports one some_up h in
      let b = x.master in
      let back = λ (a : Bytes).
        ap (λ u. master_after initial u a) x.ends.finish
        ∙ master_after-sync_labels cfg env initial a b.pod.name pods x.before in
      (
        x.ends.result,
        x.ends.forgets,
        (
          b,
          (
            x.sole.0,
            All-of_In _ (reached_by cfg env pods t) (λ r m.
                back (address_of cfg r) ∙ All-In _ (reached_by cfg env pods t) r x.sole.1 m),
          ),
          All-of_In _ pods (λ p m.
              ap (λ u. label_after labels u p.namespace p.name) x.ends.finish
              ∙ sync_labels-wanted env labels b.pod.name p pods x.before m (
                  inl (
                    x.labels_stay p.namespace p.name
                    ∙ label_after-probe cfg env labels p.namespace p.name pods t
                    ∙ All-In _ pods p shown m))),
        ),
      )
