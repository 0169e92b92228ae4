-- ===== src/Controller/Converge/Sets.antt =====
-- The sets of a tick of `reconcile`, one after the other.
use mathlib.Core.Path.{subst}
use redis_replication_contro.Base.{
  ◌≡◌, refl, sym, ap, ◌∙◌, inl, inr, Bool, true, false, ◌&&◌, List, [], ◌∷◌, arith, All, In,
  All-of_In, Bool-cases, keep_if, keep_if-In,
}
use redis_replication_contro.Base.Bytes.{Bytes, bytes_eq}
use redis_replication_contro.Base.Bytes.Laws.{bytes_eq_iff}
use redis_replication_contro.Kube.Pods.{Pod}
use redis_replication_contro.Config.{Config}
use redis_replication_contro.Controller.Sets.{
  SetKey, SetState, Groups, Sets, key_eq, key_of, lookup, group_by_set, state_or_new,
}
use redis_replication_contro.Controller.Sets.Maps.{key_eq_iff}
use redis_replication_contro.Controller.Sets.Groups.{group_of_key}
use redis_replication_contro.Controller.World.{Trace, Env}
use redis_replication_contro.Controller.Failover.{address}
use redis_replication_contro.Controller.Reconcile.{is_probed, reconcile_set, reconcile_keys}
use redis_replication_contro.Controller.Reconcile.Isolated.{visited, visit, reconcile_keys_step}
use redis_replication_contro.Controller.Converge.{
  Outages, master_after, label_after, Reports, OneAddressEach,
}
use redis_replication_contro.Controller.Converge.Others.{role-elsewhere, label-others}

-- A pod is known by its namespace and name, and a running pod also by its address.
pub record IsCluster (cfg : Config) (pods : List Pod) : Type 0 where
  pub names :
      (p q : Pod)
      → In p pods
      → In q pods
      → (bytes_eq p.namespace q.namespace && bytes_eq p.name q.name) ≡ true
      → p ≡ q
  pub addresses :
      (p q : Pod)
      → In p pods
      → In q pods
      → is_probed p ≡ true
      → is_probed q ≡ true
      → bytes_eq (address p.ip cfg.redis_port) (address q.ip cfg.redis_port)
        ≡ (bytes_eq p.namespace q.namespace && bytes_eq p.name q.name)

-- The pods of a set.
abbrev pub own : Config → List Pod → SetKey → List Pod
own cfg pods k =
    keep_if (λ p. key_eq (key_of cfg.redis_set_label_key cfg.default_set_name p) k) pods

module _ (cfg : Config) (pods : List Pod) (cluster : IsCluster cfg pods) where
  own-In :
      (k : SetKey) (p : Pod)
      → In p (own cfg pods k)
      → In p pods × (key_eq (key_of cfg.redis_set_label_key cfg.default_set_name p) k ≡ true)
  own-In k p m = keep_if-In _ pods p m

  own-namespace : (k : SetKey) (p : Pod) → In p (own cfg pods k) → p.namespace ≡ k.namespace
  unfolding key_eq
  own-namespace k p m =
      let e = (own-In k p m).1 in (bytes_eq_iff p.namespace k.namespace).0 (ground arith)

  pub own-OneAddressEach : (k : SetKey) → OneAddressEach cfg (own cfg pods k)
  own-OneAddressEach k = record {
    same = λ p q m n h i.
        let ns =
          (bytes_eq_iff p.namespace q.namespace).1
            (own-namespace k p m ∙ sym (own-namespace k q n)) in
        let e = cluster.addresses p q (own-In k p m).0 (own-In k q n).0 h i in ground arith;
  }

  -- A pod of one set is not in another.
  own-disjoint :
      (j k : SetKey) (p q : Pod)
      → key_eq j k ≡ false
      → In p (own cfg pods j)
      → In q (own cfg pods k)
      → (bytes_eq p.namespace q.namespace && bytes_eq p.name q.name) ≡ false
  own-disjoint j k p q ne m n =
      let (mp, ep) = own-In j p m in
      let (nq, eq) = own-In k q n in
      elim (Bool-cases (bytes_eq p.namespace q.namespace && bytes_eq p.name q.name)) [
        | inl e ↦
            let same : j ≡ k =
              sym ((key_eq_iff _ j).0 ep)
              ∙ ap (key_of cfg.redis_set_label_key cfg.default_set_name) (cluster.names p q mp nq e)
              ∙ (key_eq_iff _ k).0 eq in
            absurd (cc (ne, (key_eq_iff j k).1 same))
        | inr e ↦ e
      ]

module _ (cfg : Config) (env : Env) (initial : Bytes → Bool) (labels : Bytes → Bytes → Bytes)
    (pods : List Pod) (k : SetKey) where
  -- The roles of the running pods of the set and the labels of its pods are the same after `t'` as after
  -- `t`.
  pub record Keeps (t t' : Trace) : Type 0 where
    pub roles :
        (q : Pod)
        → In q (own cfg pods k)
        → is_probed q ≡ true
        → master_after initial t' (address q.ip cfg.redis_port)
          ≡ master_after initial t (address q.ip cfg.redis_port)
    pub role_labels :
        (q : Pod)
        → In q (own cfg pods k)
        → label_after labels t' q.namespace q.name ≡ label_after labels t q.namespace q.name

  pub Keeps-refl : (t : Trace) → Keeps t t
  Keeps-refl t = record { roles = λ q m h. refl; role_labels = λ q m. refl }

  pub Keeps-trans : (t u v : Trace) → Keeps t u → Keeps u v → Keeps t v
  Keeps-trans t u v h i = record {
    roles = λ q m p. i.roles q m p ∙ h.roles q m p;
    role_labels = λ q m. i.role_labels q m ∙ h.role_labels q m;
  }

  tick-Keeps :
      (j : SetKey) (st : SetState) (t : Trace)
      → Outages env
      → Reports initial env
      → IsCluster cfg pods
      → key_eq j k ≡ false
      → Keeps t (reconcile_set cfg (own cfg pods j) st env t).1
  tick-Keeps j st t cut reports cluster ne = record {
    roles = λ q n h.
        role-elsewhere cfg env initial (own cfg pods j) (address q.ip cfg.redis_port) st t cut
          reports
          (All-of_In _ (own cfg pods j) (λ p m i.
            cluster.addresses p q (keep_if-In _ pods p m).0 (keep_if-In _ pods q n).0 i h
            ∙ own-disjoint cfg pods cluster j k p q ne m n));
    role_labels = λ q n.
        label-others cfg env labels q (own cfg pods j) st t
          (All-of_In _ (own cfg pods j) (λ p m. own-disjoint cfg pods cluster j k p q ne m n));
  }

  abbrev pub groups : Groups
  groups = group_by_set pods cfg.redis_set_label_key cfg.default_set_name

  pub visit-Keeps :
      (j : SetKey) (sets : Sets) (t : Trace)
      → Outages env
      → Reports initial env
      → IsCluster cfg pods
      → key_eq j k ≡ false
      → Keeps t (visit cfg env groups sets j t)
  visit-Keeps j sets t cut reports cluster ne =
      subst (λ l. Keeps t (reconcile_set cfg l (state_or_new (lookup sets j)) env t).1)
        (sym (group_of_key pods cfg.redis_set_label_key cfg.default_set_name j))
        (tick-Keeps j (state_or_new (lookup sets j)) t cut reports cluster ne)

  pub rest-Keeps :
      (ks : List SetKey) (sets : Sets) (t : Trace)
      → Outages env
      → Reports initial env
      → IsCluster cfg pods
      → All (λ j. key_eq j k ≡ false) ks
      → Keeps t (reconcile_keys cfg groups ks sets env t).1
  rest-Keeps [] sets t cut reports cluster h = unfold reconcile_keys in Keeps-refl t
  rest-Keeps (j ∷ ks) sets t cut reports cluster (h, hs) =
      let u = visit cfg env groups sets j t in
      subst (λ r. Keeps t r.1) (sym (reconcile_keys_step cfg env groups j ks sets t))
        (Keeps-trans t u _ (visit-Keeps j sets t cut reports cluster h)
          (rest-Keeps ks (visited cfg env groups sets j t) u cut reports cluster hs))

  -- The set's own tick among those of the keys: the events `u` before it, which kept the set as it was
  -- after `t`, and the events `t'` at the end of all ticks, up to which the later ticks kept it.
  pub record Visited (sets : Sets) (t t' : Trace) : Type 0 where
    pub before : Trace
    pub untouched : Keeps t before
    pub kept :
        Keeps (reconcile_set cfg (own cfg pods k) (state_or_new (lookup sets k)) env before).1 t'
