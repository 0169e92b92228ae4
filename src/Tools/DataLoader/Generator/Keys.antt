-- ===== src/Tools/DataLoader/Generator/Keys.antt =====
-- The pairs that are generated, and the sample keys of tools/failover-probe/main.go.
use redis_replication_contro.Base.{
  ℕ, ◌+◌, ◌%◌, ◌<◌, ◌≡◌, ◌≢◌, refl, Bool, true, false, some, ◌∷◌, ◌++◌, ◌==◌, arith, length, All,
  if◌then◌else◌,
}
use redis_replication_contro.Base.Bytes.{Bytes, to_lower}
use redis_replication_contro.Tools.FailoverProbe.Settings.{sample_key}
use redis_replication_contro.Tools.DataLoader.Generator.Shapes.{Generator}
use redis_replication_contro.Tools.DataLoader.Generator.Draws.{Source, Gen}
use redis_replication_contro.Tools.DataLoader.Generator.Values.{make_ips}
use redis_replication_contro.Tools.DataLoader.Generator.Pairs.{
  Tools, new_generator, gen_session, gen_user_profile, gen_product, gen_category, gen_api_response,
  gen_rate_limit, gen_feature_flag, gen_sticky_lb, gen_key_value,
}
use redis_replication_contro.Tools.DataLoader.Generator.Total.{
  IsUniform, Gives, bind-Gives, ◌▷◌, pure-Gives, rnd_n-Total, uuid-Total, numbered-Total,
  pick-Gives, pick-Total, repeat-length, value_of,
}
use redis_replication_contro.Tools.DataLoader.Generator.Drawn.{
  make_ip-Total, HasTables, session_data-Total, user_profile-Total, product_detail-Total,
  category_page-Total, api_response-Total, feature_flag-Total,
}
use redis_replication_contro.Tools.DataLoader.Generator.Guess.{
  IsKey, differ_at, HasBrand, product_id-Gives, branded_differs, not_guessed,
}

record HasEntries (g : Generator) : Type 0 where
  pub tables : HasTables g
  pub categories : 0 < length g.categories
  pub products : 0 < length g.products
  pub brands : All HasBrand g.products
  pub api_paths : 0 < length g.api_paths
  pub feature_flags : 0 < length g.feature_flags

module _ {rng : Source} (uniform : IsUniform rng) (w : Tools) (g : Generator) (prefix : Bytes)
    (n : ℕ) where
  gen_session-Gives : HasTables g → Gives rng (IsKey prefix n) (gen_session w g prefix)
  unfolding gen_session
  gen_session-Gives h = uuid-Total ▷ λ id. session_data-Total uniform w.stamp g h ▷ λ s.
      pure-Gives _ (_, (refl, (differ_at 1 _ _ (omega arith), (_, refl))))

  gen_user_profile-Gives : HasTables g → Gives rng (IsKey prefix n) (gen_user_profile w g prefix)
  unfolding gen_user_profile
  gen_user_profile-Gives h = numbered-Total _ _ _ ▷ λ uid. rnd_n-Total _ ▷ λ hours.
      user_profile-Total uniform w.stamp g uid hours h ▷ λ p.
      pure-Gives _ (_, (refl, (differ_at 1 _ _ (omega arith), (_, refl))))

  gen_product-Gives :
      0 < length g.products
      → All HasBrand g.products
      → Gives rng (IsKey prefix n) (gen_product w g prefix)
  unfolding gen_product
  gen_product-Gives h brands = bind-Gives (pick-Gives uniform g.products h brands) λ tpl brand.
      bind-Gives (product_id-Gives tpl brand) λ pid branded.
        product_detail-Total uniform tpl pid ▷ λ p.
        pure-Gives _ (_, (refl, (branded_differs pid n branded, (_, refl))))

  gen_category-Gives :
      0 < length g.categories → Gives rng (IsKey prefix n) (gen_category w g prefix)
  unfolding gen_category
  gen_category-Gives h = pick-Total uniform g.categories h ▷ λ cat.
      category_page-Total uniform cat ▷ λ cp.
      rnd_n-Total _ ▷ λ k. pure-Gives _ (_, (refl, (differ_at 7 _ _ (omega arith), (_, refl))))

  gen_api_response-Gives :
      0 < length g.api_paths → Gives rng (IsKey prefix n) (gen_api_response w g prefix)
  unfolding gen_api_response
  gen_api_response-Gives h = pick-Total uniform g.api_paths h ▷ λ format.
      numbered-Total _ _ _ ▷ λ user. numbered-Total _ _ _ ▷ λ item.
      api_response-Total uniform w ▷ λ resp.
      pure-Gives _ (_, (refl, (differ_at 7 _ _ (omega arith), (_, refl))))

  gen_rate_limit-Gives : HasTables g → Gives rng (IsKey prefix n) (gen_rate_limit w g prefix)
  unfolding gen_rate_limit
  gen_rate_limit-Gives h = pick-Total uniform g.ips h.ips ▷ λ ip.
      pick-Total uniform _ (omega arith) ▷ λ window.
      rnd_n-Total _ ▷ λ limit. pure-Gives _ (_, (refl, (differ_at 1 _ _ (omega arith), (_, refl))))

  gen_feature_flag-Gives :
      0 < length g.feature_flags → Gives rng (IsKey prefix n) (gen_feature_flag w g prefix)
  unfolding gen_feature_flag
  gen_feature_flag-Gives h = pick-Total uniform g.feature_flags h ▷ λ ft.
      feature_flag-Total uniform w ft ▷ λ ff.
      pure-Gives _ (_, (refl, (differ_at 1 _ _ (omega arith), (_, refl))))

  gen_sticky_lb-Gives : Gives rng (IsKey prefix n) (gen_sticky_lb w g prefix)
  unfolding gen_sticky_lb
  gen_sticky_lb-Gives = uuid-Total ▷ λ sid.
      rnd_n-Total _ ▷ λ k. pure-Gives _ (_, (refl, (differ_at 1 _ _ (omega arith), (_, refl))))

  if-Gives :
      (b : Bool) {x y : Gen (Bytes × Bytes)}
      → Gives rng (IsKey prefix n) x
      → Gives rng (IsKey prefix n) y
      → Gives rng (IsKey prefix n) (if b then x else y)
  if-Gives true hx hy = hx
  if-Gives false hx hy = hy

  gen_key_value-Gives :
      (idx : ℕ) → HasEntries g → Gives rng (IsKey prefix n) (gen_key_value w g prefix idx)
  unfolding gen_key_value
  gen_key_value-Gives idx h =
      let k = idx % 8 in
      if-Gives (k == 0) (gen_session-Gives h.tables) (
        if-Gives (k == 1) (gen_user_profile-Gives h.tables) (
          if-Gives (k == 2) (gen_product-Gives h.products h.brands) (
            if-Gives (k == 3) (gen_category-Gives h.categories) (
              if-Gives (k == 4) (gen_api_response-Gives h.api_paths) (
                if-Gives (k == 5) (gen_rate_limit-Gives h.tables) (
                  if-Gives (k == 6) (gen_feature_flag-Gives h.feature_flags)
                    gen_sticky_lb-Gives))))))

new_generator-Gives : {rng : Source} → IsUniform rng → Gives rng HasEntries new_generator
unfolding new_generator make_ips to_lower
new_generator-Gives uniform = bind-Gives (repeat-length 120 make_ip-Total) λ ips many.
    pure-Gives _ (record {
      tables = record {
        first_names = omega arith;
        last_names = omega arith;
        domains = omega arith;
        user_agents = omega arith;
        countries = omega arith;
        ips = omega arith;
      };
      categories = omega arith;
      products = omega arith;
      brands = omega arith;
      api_paths = omega arith;
      feature_flags = omega arith;
    })

-- With the tables of `newGenerator` and any random numbers that `Intn` may give, a pair is generated for
-- every index without an index out of range; its key begins with the prefix and a colon, which the
-- pattern of the probe's scan asks for; and it is none of the product keys that the probe guesses before
-- its first scan.
pub gen_key_value-key :
    (rng : Source)
    → IsUniform rng
    → (w : Tools) (g : Generator) (made : ℕ) → (new_generator rng made).0 ≡ some g
    → (prefix : Bytes) (idx k i draw : ℕ) → i % 8 ≡ 2
    → (pair : Bytes × Bytes) × (((gen_key_value w g prefix idx rng k).0 ≡ some pair)
        × ((rest : Bytes) × ((pair.0 ≡ prefix ++ b':' ∷ rest)
              × (pair.0 ≢ sample_key prefix i draw))))
gen_key_value-key rng uniform w g made e prefix idx k i draw two =
    let entries = value_of (new_generator-Gives uniform) made g e in
    let (pair, (out, key)) =
      (gen_key_value-Gives uniform w g prefix (1000 + i % 9000) idx entries).runs k in
    (pair, (out, not_guessed prefix i draw pair two key))
