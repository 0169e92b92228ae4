-- ===== src/Controller/Converge/WholeTests.antt =====
-- Two listed pods of one set, of which the second has no master to follow any more.
use redis_replication_contro.Base.{
  ◌≡◌, refl, inl, inr, true, ◌&&◌, some, List, [], ◌∷◌, All, All-In, In, arith,
}
use redis_replication_contro.Base.Result.{ok}
use redis_replication_contro.Base.Int.{pos}
use redis_replication_contro.Base.Sort.{sort_by}
use redis_replication_contro.Base.Bytes.{Bytes, codes, bytes_eq, bytes_lt, after_last, has_prefix}
use redis_replication_contro.Base.Bytes.Laws.{bytes_eq_refl}
use redis_replication_contro.Strconv.{format_int}
use redis_replication_contro.Kube.Pods.{
  ApiPod, Pod, role_label, get, set_name, copy_map, to_pod, list_redis_pods, ordinal_from_name,
  pod_less, ordinal_less,
}
use redis_replication_contro.Controller.Failover.{address}
use redis_replication_contro.Controller.Sets.{Sets, key_eq, lookup, state_or_new}
use redis_replication_contro.Controller.World.{Env}
use redis_replication_contro.Controller.Reconcile.{is_probed, reconcile}
use redis_replication_contro.Controller.Samples.{
  test_config, test_api_pod, default_key, missing_state,
}
use redis_replication_contro.Controller.Converge.{label_after, Reports, Outages, is_up}
use redis_replication_contro.Controller.Converge.Samples.{
  second_master, without, only_without, obedient, obedient-Reports,
}
use redis_replication_contro.Controller.Converge.Answers.{AnswerAlways}
use redis_replication_contro.Controller.Converge.Sets.{IsCluster, own}
use redis_replication_contro.Controller.Converge.Promise.{IsDue, HasOneMaster}
use redis_replication_contro.Controller.Converge.Whole.{reconcile-HasOneMaster}

abbrev first_api_pod : ApiPod
first_api_pod = record test_api_pod { name = codes "left" }

abbrev second_api_pod : ApiPod
second_api_pod = record test_api_pod { name = codes "right"; pod_ip = codes "10.0.0.2" }

abbrev listed : List Pod
listed = to_pod first_api_pod ∷ to_pod second_api_pod ∷ []

-- The second pod was the master, and nobody can connect to it any more.
abbrev cluster_env : Env
cluster_env = without (codes "10.0.0.2") (record (obedient second_master) {
  listing = λ t ns selector. some (first_api_pod ∷ second_api_pod ∷ []);
})

abbrev second_lost : Outages cluster_env
second_lost = only_without (codes "10.0.0.2") (record (obedient second_master) {
  listing = λ t ns selector. some (first_api_pod ∷ second_api_pod ∷ []);
})

both_listed :
    list_redis_pods
      (λ ns selector. some (first_api_pod ∷ second_api_pod ∷ []))
      test_config.redis_namespaces
      test_config.redis_pod_label_selector
    ≡ ok listed
unfolding list_redis_pods sort_by pod_less to_pod ordinal_from_name bytes_eq after_last ordinal_less
    bytes_lt
both_listed = refl

no_labels : Bytes → Bytes → Bytes
no_labels ns name = []

listed_shown : All (λ q. label_after no_labels [] q.namespace q.name ≡ role_label q) listed
unfolding role_label get bytes_eq to_pod copy_map no_labels
listed_shown = (refl, (refl, tt))

abbrev NamesFit : Pod → Pod → Type 0
NamesFit p q = (bytes_eq p.namespace q.namespace && bytes_eq p.name q.name) ≡ true → p ≡ q

listed_names : All (λ p. All (NamesFit p) listed) listed
unfolding to_pod bytes_eq
listed_names =
    (((λ e. refl), ((λ e. absurd (cc)), tt)), (((λ e. absurd (cc)), ((λ e. refl), tt)), tt))

abbrev AddressesFit : Pod → Pod → Type 0
AddressesFit p q =
    bytes_eq (address p.ip (pos 6379)) (address q.ip (pos 6379))
    ≡ (bytes_eq p.namespace q.namespace && bytes_eq p.name q.name)

listed_addresses : All (λ p. All (AddressesFit p) listed) listed
unfolding to_pod address bytes_eq
listed_addresses = (
  (bytes_eq_refl (format_int (pos 6379)), (refl, tt)),
  ((refl, (bytes_eq_refl (format_int (pos 6379)), tt)), tt),
)

both :
    (P : Pod → Pod → Type 0)
    → All (λ p. All (P p) listed) listed
    → (p q : Pod) → In p listed
    → In q listed
    → P p q
both P h p q m n = All-In (P p) listed q (All-In (λ p. All (P p) listed) listed p h m) n

listed-IsCluster : IsCluster test_config listed
listed-IsCluster = record {
  names = λ p q m n. both NamesFit listed_names p q m n;
  addresses = λ p q m n h i. both AddressesFit listed_addresses p q m n;
}

listed-AnswerAlways :
    AnswerAlways test_config cluster_env second_lost (own test_config listed default_key)
listed-AnswerAlways = record { answer = λ p t m h. (_, refl) }

own-listed : In (to_pod first_api_pod) (own test_config listed default_key)
unfolding to_pod key_eq set_name get copy_map bytes_eq
own-listed = inl refl

first_up : is_up cluster_env second_lost test_config (to_pod first_api_pod) ≡ true
unfolding is_probed to_pod address bytes_eq has_prefix
first_up = refl

first-IsDue :
    IsDue test_config cluster_env second_master
      ((default_key, missing_state) ∷ [])
      default_key
      (to_pod first_api_pod)
      []
unfolding state_or_new lookup key_eq bytes_eq
first-IsDue = inr (3, refl, λ u. omega arith)

cluster_env-Reports : Reports second_master cluster_env
cluster_env-Reports = record { role = (obedient-Reports second_master).role }

reconcile-HasOneMaster_example :
    let sets : Sets = (default_key, missing_state) ∷ [] in
    HasOneMaster test_config cluster_env second_master no_labels listed sets default_key second_lost
      (reconcile test_config sets cluster_env []).1
reconcile-HasOneMaster_example =
    reconcile-HasOneMaster test_config cluster_env second_master no_labels
      ((default_key, missing_state) ∷ []) [] listed default_key (to_pod first_api_pod) second_lost
      cluster_env-Reports listed-IsCluster both_listed listed_shown listed-AnswerAlways own-listed
      first_up first-IsDue
