-- ===== src/Controller/Select/Failover.antt =====
-- Which replica a failover promotes.
use mathlib.Core.Path.{subst}
use mathlib.Core.Option.{some-injective}
use redis_replication_contro.Base.{
  ◌≡◌, ◌≢◌, refl, ◌⊎◌, inl, inr, true, false, some, List, [], ◌∷◌, arith, All, In, sym, keep_if,
  keep_if-In, keep_if-All, keep_if-nil,
}
use redis_replication_contro.Base.Bytes.{codes}
use redis_replication_contro.Base.Bytes.Laws.{bytes_eq_iff}
use redis_replication_contro.Base.Int.{pos, ◌≤ℤ◌}
use redis_replication_contro.Controller.Select.Best.{IsRanking, IsBest, best_from-IsBest}
use redis_replication_contro.Controller.Select.{
  PodInfo, offset_of, best_from, link_up, outranks, best_of, or_all, select_failover_candidate,
}

-- `b` is at least as good a choice as `r`: its offset is not lower, and where the offsets are the same a
-- known ordinal of `r` is not below that of `b`.
pub record AtLeast (b r : PodInfo) : Type 0 where
  pub offsets : offset_of r ≤ℤ offset_of b
  pub ordinals :
      offset_of b ≤ℤ offset_of r
      → pos 0 ≤ℤ r.pod.ordinal
      → (pos 0 ≤ℤ b.pod.ordinal) × (b.pod.ordinal ≤ℤ r.pod.ordinal)

AtLeast-refl : (r : PodInfo) → AtLeast r r
AtLeast-refl r = omega arith

AtLeast-trans : (a b c : PodInfo) → AtLeast a b → AtLeast b c → AtLeast a c
AtLeast-trans a b c h k = record {
  offsets = omega arith;
  ordinals = λ x y.
      let p = k.ordinals (omega arith) y in
      let q = h.ordinals (omega arith) p.0 in (q.0, omega arith);
}

outranks_yes : (r b : PodInfo) → outranks r b ≡ true → AtLeast r b
unfolding outranks
outranks_yes r b h = ground arith

outranks_no : (r b : PodInfo) → outranks r b ≡ false → AtLeast b r
unfolding outranks
outranks_no r b h = ground arith

outranks-IsRanking : IsRanking AtLeast outranks
outranks-IsRanking = record {
  reflexive = AtLeast-refl;
  trans = AtLeast-trans;
  beaten = outranks_yes;
  kept = outranks_no;
}

best_of-IsBest : (rs : List PodInfo) (b : PodInfo) → best_of rs ≡ some b → IsBest AtLeast b rs
unfolding best_of
best_of-IsBest [] b h = absurd (cc)
best_of-IsBest (r ∷ rs) b h =
    subst (λ x. IsBest AtLeast x (r ∷ rs)) (some-injective _ _ h)
      (best_from-IsBest AtLeast outranks outranks-IsRanking r rs)

-- The report says `master_link_status:down`.
abbrev pub IsLinkDown : PodInfo → Type 0
IsLinkDown r = r.info.master_link_status ≡ codes "down"

link_up-false : (r : PodInfo) → link_up r ≡ false → IsLinkDown r
unfolding link_up
link_up-false r h = ground (arith, bytes_eq_iff r.info.master_link_status (codes "down"))

link_up-true : (r : PodInfo) → link_up r ≡ true → ¬ IsLinkDown r
unfolding link_up
link_up-true r h e = absurd (ground (arith, bytes_eq_iff r.info.master_link_status (codes "down")))

not_down-link_up : (r : PodInfo) → ¬ IsLinkDown r → link_up r ≡ true
unfolding link_up
not_down-link_up r h = ground (arith, bytes_eq_iff r.info.master_link_status (codes "down"))

All-map :
    {P Q : PodInfo → Type 0}
    → ((r : PodInfo) → P r → Q r)
    → (rs : List PodInfo) → All P rs
    → All Q rs
All-map f [] h = tt
All-map f (r ∷ rs) (h, hs) = (f r h, All-map f rs hs)

-- What the choice of `b` from `rs` promises.
pub record IsChoice (b : PodInfo) (rs : List PodInfo) : Type 0 where
  pub member : In b rs
  pub choice :
      (¬ IsLinkDown b × All (λ r. ¬ IsLinkDown r → AtLeast b r) rs)
      ⊎ (All IsLinkDown rs × All (AtLeast b) rs)

choose :
    (rs pool : List PodInfo)
    → keep_if link_up rs ≡ pool
    → rs ≢ []
    → (b : PodInfo) × (best_of (or_all rs pool) ≡ some b) × IsChoice b rs
choose [] pool e h = absurd (h refl)
choose (r ∷ rs) [] e h =
    let best = best_from-IsBest AtLeast outranks outranks-IsRanking r rs in
    (
      best_from outranks r (r ∷ rs),
      unfold or_all best_of in refl,
      record {
        member = best.member;
        choice = inr (All-map link_up-false (r ∷ rs) (keep_if-nil link_up (r ∷ rs) e), best.best);
      },
    )
choose (r ∷ rs) (u ∷ us) e h =
    let best = best_from-IsBest AtLeast outranks outranks-IsRanking u us in
    let b = best_from outranks u (u ∷ us) in
    let kept = keep_if-In link_up (r ∷ rs) b (subst (In b) (sym e) best.member) in
    (
      b,
      unfold or_all best_of in refl,
      record {
        member = kept.0;
        choice = inl (
          link_up-true b kept.1,
          All-map (λ x h up. h (not_down-link_up x up)) (r ∷ rs)
              (keep_if-All link_up (AtLeast b) (r ∷ rs)
                (subst (All (AtLeast b)) (sym e) best.best)),
        );
      },
    )

-- From at least one replica one is chosen. It is among the replicas. If any replica's link to its master
-- was not reported as "down", the chosen one's was not, and it is at least as good (by offset, then by known
-- and lower ordinal) as every such replica; if all links were down, it is at least as good as all.
pub select_failover_candidate-IsChoice :
    (rs : List PodInfo)
    → rs ≢ []
    → (b : PodInfo) × (select_failover_candidate rs ≡ some b) × IsChoice b rs
unfolding select_failover_candidate
select_failover_candidate-IsChoice rs h = choose rs (keep_if link_up rs) refl h
