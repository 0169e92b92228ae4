-- ===== src/Controller/Converge/Samples.antt =====
-- Instances that do as they are told, for the tests.
use redis_replication_contro.Base.{
  ◌≡◌, refl, sym, ap, ◌∙◌, Bool, true, false, not, some, All, All-In,
}
use redis_replication_contro.Base.Bytes.{Bytes, codes, bytes_eq, has_prefix}
use redis_replication_contro.Base.Bytes.Laws.{bytes_eq_refl}
use redis_replication_contro.Base.Int.{pos}
use redis_replication_contro.Strconv.{format_int}
use redis_replication_contro.Redis.Info.{is_master}
use redis_replication_contro.Kube.Pods.{Pod}
use redis_replication_contro.Controller.Failover.{address}
use redis_replication_contro.Controller.World.{Event, dial, Env}
use redis_replication_contro.Controller.Samples.{test_config, test_env, test_info, two_pods}
use redis_replication_contro.Controller.Converge.{master_after, Reports, OneAddressEach, Outages}

abbrev pub role_name : Bool → Bytes
role_name true = codes "master"
role_name false = codes "slave"

-- Instances that do as they are told.
abbrev pub obedient : (Bytes → Bool) → Env
obedient initial = record (test_env (codes "master")) {
  report = λ t addr. some (test_info (role_name (master_after initial t addr)) 7);
}

told_role : (b : Bool) → is_master (some (test_info (role_name b) 7)) ≡ b
unfolding is_master bytes_eq
told_role true = refl
told_role false = refl

pub obedient-Reports : (initial : Bytes → Bool) → Reports initial (obedient initial)
obedient-Reports initial = record {
  role = λ t addr r e. ap is_master (sym e) ∙ told_role (master_after initial t addr);
}

abbrev AddressFits : Pod → Pod → Type 0
AddressFits p q =
    bytes_eq (address p.ip (pos 6379)) (address q.ip (pos 6379)) ≡ bytes_eq p.name q.name

two_pods-fit : All (λ p. All (AddressFits p) two_pods) two_pods
unfolding address bytes_eq
two_pods-fit = (
  (bytes_eq_refl (format_int (pos 6379)), (refl, tt)),
  ((refl, (bytes_eq_refl (format_int (pos 6379)), tt)), tt),
)

pub two_pods-OneAddressEach : OneAddressEach test_config two_pods
two_pods-OneAddressEach = record {
  same = λ p q mp mq h k.
      All-In (AddressFits p) two_pods q
        (All-In (λ p. All (AddressFits p) two_pods) two_pods p two_pods-fit mp) mq;
}

abbrev pub is_lost : Bytes → Event → Bool
is_lost lost (dial addr) = has_prefix addr lost
is_lost lost e = false

-- Everybody is up but the instances whose addresses begin with the prefix.
abbrev pub without : Bytes → Env → Env
without lost env = record env { succeeds = λ t e. not (is_lost lost e) }

abbrev pub only_without : (lost : Bytes) (env : Env) → Outages (without lost env)
only_without lost env = record {
  up = λ addr. not (has_prefix addr lost);
  obeys = λ addr h. record { dials = λ t. h; promotes = λ t. refl; follows = λ t host port. refl };
  down = λ t addr h. h;
}

abbrev pub second_master : Bytes → Bool
second_master a = has_prefix a (codes "10.0.0.2")

-- Nobody can connect to the second pod any more, which was the master.
abbrev pub lost_env : Env
lost_env = without (codes "10.0.0.2") (obedient second_master)
