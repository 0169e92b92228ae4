-- ===== src/Controller/Converge/Ends.antt =====
-- How a tick of a set that has a master, or promotes one, ends.
use mathlib.Core.Path.{subst}
use redis_replication_contro.Base.{
  some, ◌≡◌, refl, sym, ap, ◌∙◌, inl, Bool, false, not, ◌&&◌, none, List, [], ◌∷◌, arith, All, In,
  All-of_In, keep_if-In,
}
use redis_replication_contro.Base.Result.{ok}
use redis_replication_contro.Base.Bytes.{Bytes, bytes_eq}
use redis_replication_contro.Base.Bytes.Laws.{bytes_eq_refl}
use redis_replication_contro.Redis.Info.{is_master}
use redis_replication_contro.Kube.Pods.{Pod}
use redis_replication_contro.Config.{Config}
use redis_replication_contro.Controller.Select.{PodInfo}
use redis_replication_contro.Controller.Sets.{SetState}
use redis_replication_contro.Controller.World.{Trace, Env}
use redis_replication_contro.Controller.Failover.{redirect}
use redis_replication_contro.Controller.Reconcile.{
  Outcome, masters_of, pick_master, sync_labels, with_masters,
}
use redis_replication_contro.Controller.Reconcile.Elects.{pick_master-choice}
use redis_replication_contro.Controller.Converge.{AllObey, kept-AllObey, master_after, label_after}
use redis_replication_contro.Controller.Converge.Roles.{is_told, master_after-redirect}
use redis_replication_contro.Controller.Converge.Labels.{label_after-redirect}
use redis_replication_contro.Controller.Converge.Among.{address_of, Found, redirected_role}

abbrev pub LabelsStay : (Bytes → Bytes → Bytes) → Trace → Trace → Type 0
LabelsStay initial t t' =
    (ns name : Bytes) → label_after initial t' ns name ≡ label_after initial t ns name

-- After the events `t'` the pod `b` is the only master among the reached ones.
abbrev pub IsSoleMaster : Config → (Bytes → Bool) → List PodInfo → PodInfo → Trace → Type 0
IsSoleMaster cfg initial reached b t' =
    In b reached
    × All (λ r. master_after initial t' (address_of cfg r) ≡ bytes_eq r.pod.name b.pod.name) reached

-- How the tick ends that has `b` as the set's master from the events `t'` on: with the labels.
pub record Ends (env : Env) (pods : List Pod) (b : PodInfo) (t' : Trace) (r : Outcome × Trace)
    : Type 0 where
  pub finish : r.1 ≡ (sync_labels b.pod.name pods env t').1
  pub result : r.0.0 ≡ ok tt
  pub forgets : r.0.1.master_missing_at ≡ none

module _ (cfg : Config) (env : Env) (initial : Bytes → Bool) (labels : Bytes → Bytes → Bytes)
    (pods : List Pod) (reached : List PodInfo) (t : Trace) where
  -- The rest of a tick after the probes, which ended with the events `t`.
  pub record Elects (r : Outcome × Trace) : Type 0 where
    pub master : PodInfo
    pub before : Trace
    pub sole : IsSoleMaster cfg initial reached master before
    pub labels_stay : LabelsStay labels t before
    pub ends : Ends env pods master before r

  pub several :
      (m n : PodInfo) (ms : List PodInfo) (st : SetState) (replicas : List PodInfo)
      → AllObey cfg env reached
      → Found cfg pods (master_after initial t) reached
      → masters_of reached ≡ m ∷ n ∷ ms
      → Elects (with_masters cfg pods replicas st (m ∷ n ∷ ms) env t)
  unfolding with_masters
  several m n ms st replicas all f e =
      let b = pick_master cfg.initial_master_strategy m (n ∷ ms) in
      let mem : In b (masters_of reached) =
        subst (In b) (sym e) (pick_master-choice cfg.initial_master_strategy m (n ∷ ms)).0 in
      record {
        master = b;
        before = (redirect cfg b.pod.name b.pod.ip (m ∷ n ∷ ms) env t).1;
        sole = (
          (keep_if-In _ reached b mem).0,
          All-of_In _ reached (λ s at.
              master_after-redirect cfg env initial (address_of cfg s) b.pod.name b.pod.ip
                (m ∷ n ∷ ms) t
                (subst (AllObey cfg env) e
                  (kept-AllObey cfg env (λ pi. is_master (some pi.info)) reached all))
              ∙ ap
                  (λ l.
                    not (is_told cfg (address_of cfg s) b.pod.name l)
                    && master_after initial t (address_of cfg s))
                  (sym e)
              ∙ redirected_role cfg pods (master_after initial t) reached f b s mem at),
        );
        labels_stay = λ ns name.
            label_after-redirect cfg env labels ns name b.pod.name b.pod.ip (m ∷ n ∷ ms) t;
        ends = record { finish = refl; result = refl; forgets = refl };
      }

  is_told-alone : (a : Bytes) (m : PodInfo) → is_told cfg a m.pod.name (m ∷ []) ≡ false
  unfolding is_told
  is_told-alone a m = ground (arith, bytes_eq_refl m.pod.name)

  pub single :
      (m : PodInfo) (st : SetState) (replicas : List PodInfo)
      → Found cfg pods (master_after initial t) reached
      → masters_of reached ≡ m ∷ []
      → Elects (with_masters cfg pods replicas st (m ∷ []) env t)
  unfolding with_masters
  single m st replicas f e =
      let mem : In m (masters_of reached) = subst (In m) (sym e) (inl refl) in
      record {
        master = m;
        before = t;
        sole = (
          (keep_if-In _ reached m mem).0,
          All-of_In _ reached (λ s at.
              let fact = redirected_role cfg pods (master_after initial t) reached f m s mem at in
              let untold =
                ap (is_told cfg (address_of cfg s) m.pod.name) e
                ∙ is_told-alone (address_of cfg s) m in
              ground arith),
        );
        labels_stay = λ ns name. refl;
        ends = record { finish = refl; result = refl; forgets = refl };
      }
