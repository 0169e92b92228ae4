-- ===== src/Tools/DataLoader/Generator/Drawn.antt =====
-- The values of the generator are drawn without a panic, when its tables are not empty.
use redis_replication_contro.Base.{ℕ, ◌+◌, ◌<◌, arith, length}
use redis_replication_contro.Base.Int.{ℤ}
use redis_replication_contro.Base.Bytes.{Bytes, codes}
use redis_replication_contro.Tools.DataLoader.Generator.Shapes.{
  Generator, Category, ProductTemplate, FeatureTemplate,
}
use redis_replication_contro.Tools.DataLoader.Generator.Draws.{Source}
use redis_replication_contro.Tools.DataLoader.Generator.Values.{
  make_ip, email, preferences, address, session_data, user_profile,
}
use redis_replication_contro.Tools.DataLoader.Generator.Catalog.{
  price, variant, attributes, product_detail, category_page,
}
use redis_replication_contro.Tools.DataLoader.Generator.Pairs.{
  Tools, api_item, api_response, feature_flag,
}
use redis_replication_contro.Tools.DataLoader.Generator.Total.{
  IsUniform, Total, ◌▷◌, pure-Gives, rnd_n-Total, uuid-Total, numbered-Total, flip-Total,
  pick-Total, repeat-Total,
}

-- The tables that the values are picked from.
pub record HasTables (g : Generator) : Type 0 where
  pub first_names : 0 < length g.first_names
  pub last_names : 0 < length g.last_names
  pub domains : 0 < length g.domains
  pub user_agents : 0 < length g.user_agents
  pub countries : 0 < length g.countries
  pub ips : 0 < length g.ips

pub make_ip-Total : {rng : Source} → Total rng make_ip
unfolding make_ip
make_ip-Total = rnd_n-Total _ ▷ λ a.
    rnd_n-Total _ ▷ λ b. rnd_n-Total _ ▷ λ c. rnd_n-Total _ ▷ λ d. pure-Gives _ tt

module _ {rng : Source} (uniform : IsUniform rng) where
  pub session_data-Total :
      (stamp : ℤ → Bytes) (g : Generator) → HasTables g → Total rng (session_data stamp g)
  unfolding session_data
  session_data-Total stamp g h = numbered-Total (codes "usr_") 100000 900000 ▷ λ user_id.
      rnd_n-Total _ ▷ λ since. rnd_n-Total _ ▷ λ left.
      pick-Total uniform _ h.user_agents ▷ λ user_agent. pick-Total uniform _ h.ips ▷ λ ip.
      pick-Total uniform _ h.countries ▷ λ country. uuid-Total ▷ λ device. pure-Gives _ tt

  email-Total : (g : Generator) → HasTables g → Total rng (email g)
  unfolding email
  email-Total g h = pick-Total uniform _ h.first_names ▷ λ first.
      pick-Total uniform _ h.last_names ▷ λ last.
      pick-Total uniform _ h.domains ▷ λ domain. pure-Gives _ tt

  preferences-Total : Total rng preferences
  unfolding preferences
  preferences-Total =
      flip-Total ▷ λ a. flip-Total ▷ λ b. flip-Total ▷ λ c. flip-Total ▷ λ d. pure-Gives _ tt

  address-Total : (g : Generator) → HasTables g → Total rng (address g)
  unfolding address
  address-Total g h = rnd_n-Total _ ▷ λ number. pick-Total uniform _ (omega arith) ▷ λ street.
      pick-Total uniform _ (omega arith) ▷ λ city.
      rnd_n-Total _ ▷ λ zip. pick-Total uniform _ h.countries ▷ λ country. pure-Gives _ tt

  pub user_profile-Total :
      (stamp : ℤ → Bytes) (g : Generator) (uid : Bytes) (hours : ℕ)
      → HasTables g
      → Total rng (user_profile stamp g uid hours)
  unfolding user_profile
  user_profile-Total stamp g uid hours h = pick-Total uniform _ h.first_names ▷ λ first.
      pick-Total uniform _ h.last_names ▷ λ last. email-Total g h ▷ λ mail.
      pick-Total uniform _ h.countries ▷ λ country. rnd_n-Total _ ▷ λ login.
      pick-Total uniform _ (omega arith) ▷ λ tier.
      preferences-Total ▷ λ prefs. address-Total g h ▷ λ home. pure-Gives _ tt

  price-Total : Total rng price
  unfolding price
  price-Total = rnd_n-Total _ ▷ λ n. pure-Gives _ tt

  variant-Total : (pid size : Bytes) → Total rng (variant pid size)
  unfolding variant
  variant-Total pid size = price-Total ▷ λ amount. rnd_n-Total _ ▷ λ stock. pure-Gives _ tt

  attributes-Total : Total rng attributes
  unfolding attributes
  attributes-Total = rnd_n-Total _ ▷ λ weight. rnd_n-Total _ ▷ λ width. rnd_n-Total _ ▷ λ height.
      rnd_n-Total _ ▷ λ depth. pick-Total uniform _ (omega arith) ▷ λ material. pure-Gives _ tt

  pub product_detail-Total :
      (tpl : ProductTemplate) (pid : Bytes) → Total rng (product_detail tpl pid)
  unfolding product_detail
  product_detail-Total tpl pid = price-Total ▷ λ amount. rnd_n-Total _ ▷ λ in_stock.
      rnd_n-Total _ ▷ λ rating. rnd_n-Total _ ▷ λ reviews. variant-Total pid (codes "S") ▷ λ small.
      variant-Total pid (codes "M") ▷ λ medium.
      variant-Total pid (codes "L") ▷ λ large. attributes-Total ▷ λ attrs. pure-Gives _ tt

  pub category_page-Total : (cat : Category) → Total rng (category_page cat)
  unfolding category_page
  category_page-Total cat = rnd_n-Total _ ▷ λ count.
      repeat-Total (50 + count) (numbered-Total _ _ _) ▷ λ ids. rnd_n-Total _ ▷ λ total.
      rnd_n-Total _ ▷ λ page. pick-Total uniform _ (omega arith) ▷ λ option. pure-Gives _ tt

  api_item-Total : Total rng api_item
  unfolding api_item
  api_item-Total = numbered-Total _ _ _ ▷ λ id. rnd_n-Total _ ▷ λ score. pure-Gives _ tt

  pub api_response-Total : (w : Tools) → Total rng (api_response w)
  unfolding api_response
  api_response-Total w = api_item-Total ▷ λ a. api_item-Total ▷ λ b. api_item-Total ▷ λ c.
      api_item-Total ▷ λ d. rnd_n-Total _ ▷ λ total.
      rnd_n-Total _ ▷ λ pages. uuid-Total ▷ λ next_cursor. uuid-Total ▷ λ request. pure-Gives _ tt

  pub feature_flag-Total : (w : Tools) (ft : FeatureTemplate) → Total rng (feature_flag w ft)
  unfolding feature_flag
  feature_flag-Total w ft = flip-Total ▷ λ enabled.
      pick-Total uniform _ (omega arith) ▷ λ rollout. rnd_n-Total _ ▷ λ hours. pure-Gives _ tt
