-- ===== src/Tools/DataLoader/Generator/Pairs.antt =====
-- `newGenerator` and `genKeyValue` of tools/data-loader/main.go. `json.Marshal` is the argument `marshal`;
-- its error is not looked at.
use redis_replication_contro.Base.{ℕ, ◌+◌, ◌*◌, ◌%◌, ◌==◌, List, [], ◌∷◌, ◌++◌, if◌then◌else◌}
use redis_replication_contro.Base.Int.{ℤ, pos}
use redis_replication_contro.Base.Bytes.{Bytes, codes}
use redis_replication_contro.Strconv.{format_nat}
use redis_replication_contro.Tools.DataLoader.Words.{path_hash}
use redis_replication_contro.Tools.DataLoader.Generator.Shapes.{
  Generator, FeatureTemplate, ApiItem, ApiResponse, FeatureFlag, Shape, session, profile, product,
  page, response, flag,
}
use redis_replication_contro.Tools.DataLoader.Generator.Tables
use redis_replication_contro.Tools.DataLoader.Generator.Draws.{
  Gen, ◌>>=◌, pure, rnd_n, uuid, pick, sprintf, hex_word,
}
use redis_replication_contro.Tools.DataLoader.Generator.Values.{
  numbered, flip, make_ips, ago, session_data, user_profile,
}
use redis_replication_contro.Tools.DataLoader.Generator.Catalog.{
  product_id, product_detail, category_page,
}

unfoldable pub new_generator : Gen Generator
new_generator = do
  ips ← make_ips 120
  pure (record {
    first_names = Tables.first_names;
    last_names = Tables.last_names;
    domains = Tables.domains;
    user_agents = Tables.user_agents;
    countries = Tables.countries;
    categories = Tables.categories;
    products = Tables.products;
    api_paths = Tables.api_paths;
    feature_flags = Tables.feature_flags;
    ips = ips;
  })

-- The present time and the encoder.
pub record Tools : Type 0 where
  pub stamp : ℤ → Bytes
  pub marshal : Shape → Bytes

abbrev GenPair : Type 0
GenPair = Tools → Generator → Bytes → Gen (Bytes × Bytes)

unfoldable pub gen_session : GenPair
gen_session w g prefix = do
  id ← uuid
  s ← session_data w.stamp g
  pure (prefix ++ (codes ":session:" ++ id), w.marshal (session s))

unfoldable pub gen_user_profile : GenPair
gen_user_profile w g prefix = do
  uid ← numbered (codes "usr_") 100000 900000
  hours ← rnd_n 8760
  p ← user_profile w.stamp g uid hours
  pure (prefix ++ (codes ":user:" ++ (uid ++ codes ":profile")), w.marshal (profile p))

unfoldable pub gen_product : GenPair
gen_product w g prefix = do
  tpl ← pick g.products
  pid ← product_id tpl
  p ← product_detail tpl pid
  pure (prefix ++ (codes ":cache:product:" ++ pid), w.marshal (product p))

unfoldable pub gen_category : GenPair
gen_category w g prefix = do
  cat ← pick g.categories
  cp ← category_page cat
  n ← rnd_n 10
  pure (
    prefix ++ (codes ":cache:category:" ++ (cat.slug ++ (codes ":page:" ++ format_nat (1 + n)))),
    w.marshal (page cp),
  )

unfoldable pub api_item : Gen ApiItem
api_item = do
  id ← numbered (codes "item_") 0 100000
  score ← rnd_n 100
  pure (record { id = id; name = codes "Sample Item"; score = score })

unfoldable pub api_response : Tools → Gen ApiResponse
unfolding api_item
api_response w = do
  a ← api_item
  b ← api_item
  c ← api_item
  d ← api_item
  total ← rnd_n 9800
  pages ← rnd_n 20
  next_cursor ← uuid
  request ← uuid
  pure (record {
    data_items = a ∷ b ∷ c ∷ d ∷ [];
    meta = record {
      page = 1;
      page_size = 50;
      total_count = 200 + total;
      total_pages = 5 + pages;
      next_cursor = next_cursor;
    };
    request_id = request;
    server_time = w.stamp (pos 0);
  })

unfoldable pub gen_api_response : GenPair
gen_api_response w g prefix = do
  format ← pick g.api_paths
  user ← numbered (codes "usr_") 100000 900000
  item ← numbered (codes "prod_") 1000 9000
  resp ← api_response w
  pure (
    prefix ++ (codes ":cache:api:" ++ hex_word (path_hash (sprintf format (user ∷ item ∷ [])))),
    w.marshal (response resp),
  )

abbrev windows : List Bytes
windows = codes "1m" ∷ codes "5m" ∷ codes "15m" ∷ codes "1h" ∷ []

unfoldable pub gen_rate_limit : GenPair
gen_rate_limit w g prefix = do
  ip ← pick g.ips
  window ← pick windows
  limit ← rnd_n 900
  pure (prefix ++ (codes ":ratelimit:" ++ (ip ++ b':' ∷ window)), format_nat (100 + limit))

abbrev rollouts : List ℕ
rollouts = 0 ∷ 5 ∷ 10 ∷ 25 ∷ 50 ∷ 75 ∷ 100 ∷ []

unfoldable pub feature_flag : Tools → FeatureTemplate → Gen FeatureFlag
feature_flag w ft = do
  enabled ← flip
  rollout ← pick rollouts
  hours ← rnd_n 720
  pure (record {
    name = ft.name;
    description = ft.description;
    enabled = enabled;
    rollout = rollout;
    variants = codes "control" ∷ codes "treatment_a" ∷ codes "treatment_b" ∷ [];
    updated_at = w.stamp (ago (60 * hours));
  })

unfoldable pub gen_feature_flag : GenPair
gen_feature_flag w g prefix = do
  ft ← pick g.feature_flags
  ff ← feature_flag w ft
  pure (prefix ++ (codes ":feature:" ++ ft.name), w.marshal (flag ff))

unfoldable pub gen_sticky_lb : GenPair
gen_sticky_lb w g prefix = do
  sid ← uuid
  n ← rnd_n 10
  pure (
    prefix ++ (codes ":lb:sticky:" ++ sid),
    codes "backend-" ++ (format_nat (1 + n) ++ codes ".example.internal"),
  )

unfoldable pub gen_key_value : Tools → Generator → Bytes → ℕ → Gen (Bytes × Bytes)
unfolding gen_session gen_user_profile gen_product gen_category gen_api_response gen_rate_limit
    gen_feature_flag gen_sticky_lb
gen_key_value w g prefix idx =
    let k = idx % 8 in
    if k == 0
    then gen_session w g prefix
    else if k == 1
    then gen_user_profile w g prefix
    else if k == 2
    then gen_product w g prefix
    else if k == 3
    then gen_category w g prefix
    else if k == 4
    then gen_api_response w g prefix
    else if k == 5
    then gen_rate_limit w g prefix
    else if k == 6
    then gen_feature_flag w g prefix
    else gen_sticky_lb w g prefix
