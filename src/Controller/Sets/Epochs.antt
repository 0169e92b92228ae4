-- ===== src/Controller/Sets/Epochs.antt =====
-- The epochs that `maxEpoch` reads from the annotations.
use mathlib.Core.Path.{subst}
use redis_replication_contro.Base.{
  ◌≡◌, ◌≢◌, refl, ap, ◌∙◌, inl, inr, false, Option, none, some, List, [], ◌∷◌, arith, In, sym,
  Option-cases,
}
use redis_replication_contro.Base.Int.{ℤ, pos, negsuc, IsInt64, ◌≤ℤ◌}
use redis_replication_contro.Base.Bytes.{Bytes, is_empty}
use redis_replication_contro.Strconv.{format_nat, format_int}
use redis_replication_contro.Strconv.RoundTrip.{atoi-format_int, format_nat-ne-nil}
use redis_replication_contro.Strconv.Range.{atoi-IsInt64}
use redis_replication_contro.Kube.Pods.{Pod, get}
use redis_replication_contro.Config.{annotation_failover_epoch}
use redis_replication_contro.Controller.Sets.{raise_epoch, epoch_of, max_epoch_from, max_epoch}

raise_epoch-le : (max : ℤ) (o : Option ℤ) → max ≤ℤ raise_epoch max o
unfolding raise_epoch
raise_epoch-le max none = omega arith
raise_epoch-le max (some n) = ground arith

raise_epoch_some : (max n : ℤ) → n ≤ℤ raise_epoch max (some n)
unfolding raise_epoch
raise_epoch_some max n = ground arith

max_epoch_from_step :
    (max : ℤ) (p : Pod) (ps : List Pod)
    → max_epoch_from max (p ∷ ps) ≡ max_epoch_from (raise_epoch max (epoch_of p)) ps
unfolding max_epoch_from
max_epoch_from_step max p ps = refl

le-max_epoch_from : (max : ℤ) (ps : List Pod) → max ≤ℤ max_epoch_from max ps
le-max_epoch_from max [] = unfold max_epoch_from in omega arith
le-max_epoch_from max (p ∷ ps) = rw (max_epoch_from_step max p ps) (
    omega
      (arith, le-max_epoch_from (raise_epoch max (epoch_of p)) ps, raise_epoch-le max (epoch_of p)))

-- No pod records a greater epoch than `maxEpoch` returns, and the result is not negative.
recorded-le :
    (max n : ℤ) (ps : List Pod) (p : Pod)
    → In p ps
    → epoch_of p ≡ some n
    → n ≤ℤ max_epoch_from max ps
recorded-le max n [] p m e = absurd m
recorded-le max n (q ∷ ps) p (inl same) e = rw (max_epoch_from_step max q ps) (
    omega (
      arith,
      le-max_epoch_from (raise_epoch max (epoch_of q)) ps,
      raised max n (epoch_of q) (ap epoch_of (sym same) ∙ e),
    ))
  where
    raised : (max n : ℤ) (o : Option ℤ) → o ≡ some n → n ≤ℤ raise_epoch max o
    raised max n o e' = subst (λ o. n ≤ℤ raise_epoch max o) (sym e') (raise_epoch_some max n)
recorded-le max n (q ∷ ps) p (inr m) e =
    rw (max_epoch_from_step max q ps) (recorded-le (raise_epoch max (epoch_of q)) n ps p m e)

format_int-is_empty : (z : ℤ) → is_empty (format_int z) ≡ false
unfolding format_int
format_int-is_empty (pos n) = nonempty (format_nat n) (format_nat-ne-nil n)
  where
    nonempty : (s : Bytes) → s ≢ [] → is_empty s ≡ false
    nonempty [] h = absurd (h refl)
    nonempty (c ∷ s) h = refl
format_int-is_empty (negsuc n) = refl

IsInt64-raise_epoch : (max : ℤ) (p : Pod) → IsInt64 max → IsInt64 (raise_epoch max (epoch_of p))
unfolding raise_epoch epoch_of
IsInt64-raise_epoch max p h = elim (Option-cases (epoch_of p)) [
  | inl e ↦ rw e h
  | inr (n, e) ↦ ground (arith, atoi-IsInt64 (get p.annotations annotation_failover_epoch) n)
]

pub IsInt64-max_epoch_from :
    (max : ℤ) (ps : List Pod) → IsInt64 max → IsInt64 (max_epoch_from max ps)
IsInt64-max_epoch_from max [] h = unfold max_epoch_from in h
IsInt64-max_epoch_from max (p ∷ ps) h =
    rw (max_epoch_from_step max p ps)
      (IsInt64-max_epoch_from (raise_epoch max (epoch_of p)) ps (IsInt64-raise_epoch max p h))

-- An upper bound of all recorded epochs: not negative, a 64-bit integer, and reached by every record.
pub record Bounds (pods : List Pod) : Type 0 where
  pub nonneg : pos 0 ≤ℤ max_epoch pods
  pub fits : IsInt64 (max_epoch pods)
  pub above : (p : Pod) (n : ℤ) → In p pods → epoch_of p ≡ some n → n ≤ℤ max_epoch pods

pub max_epoch-Bounds : (pods : List Pod) → Bounds pods
unfolding max_epoch
max_epoch-Bounds pods = record {
  nonneg = le-max_epoch_from (pos 0) pods;
  fits = IsInt64-max_epoch_from (pos 0) pods (omega arith);
  above = λ p n m e. recorded-le (pos 0) n pods p m e;
}

-- The annotation that a promotion writes is read back as its epoch.
pub epoch_of-format_int :
    (p : Pod) (epoch : ℤ)
    → get p.annotations annotation_failover_epoch ≡ format_int epoch
    → IsInt64 epoch
    → epoch_of p ≡ some epoch
unfolding epoch_of
epoch_of-format_int p epoch e fits =
    ground (arith, atoi-format_int epoch, format_int-is_empty epoch)
