-- ===== src/Tools/DataLoader/Generator/Shapes.antt =====
-- The records of tools/data-loader/main.go that become the generated values. A `float64` is kept as the
-- number that it is computed from: `n / 100 + 4.99` of a price, `n / 10` of a rating, `n / 100` of a score.
use redis_replication_contro.Base.{ℕ, Bool, List}
use redis_replication_contro.Base.Bytes.{Bytes}

pub record Category : Type 0 where
  pub slug : Bytes
  pub name : Bytes
  pub description : Bytes

pub record ProductTemplate : Type 0 where
  pub name : Bytes
  pub brand : Bytes
  pub category : Bytes

pub record FeatureTemplate : Type 0 where
  pub name : Bytes
  pub description : Bytes

pub record Generator : Type 0 where
  pub first_names : List Bytes
  pub last_names : List Bytes
  pub domains : List Bytes
  pub user_agents : List Bytes
  pub countries : List Bytes
  pub categories : List Category
  pub products : List ProductTemplate
  pub api_paths : List Bytes
  pub feature_flags : List FeatureTemplate
  pub ips : List Bytes

pub record SessionData : Type 0 where
  pub user_id : Bytes
  pub created_at : Bytes
  pub expires_at : Bytes
  pub user_agent : Bytes
  pub ip : Bytes
  pub country : Bytes
  pub device_id : Bytes

pub record UserAddress : Type 0 where
  pub kind : Bytes
  pub street : Bytes
  pub city : Bytes
  pub zip : Bytes
  pub country : Bytes

pub record UserProfile : Type 0 where
  pub user_id : Bytes
  pub first_name : Bytes
  pub last_name : Bytes
  pub email : Bytes
  pub country : Bytes
  pub created_at : Bytes
  pub last_login_at : Bytes
  pub tier : Bytes
  pub preferences : List (Bytes × Bool)
  pub addresses : List UserAddress

pub record ProductVariant : Type 0 where
  pub sku : Bytes
  pub size : Bytes
  pub color : Bytes
  pub price : ℕ
  pub stock : ℕ

pub record ProductDetail : Type 0 where
  pub id : Bytes
  pub name : Bytes
  pub brand : Bytes
  pub category : Bytes
  pub price : ℕ
  pub currency : Bytes
  pub in_stock : Bool
  pub rating : ℕ
  pub review_count : ℕ
  pub variants : List ProductVariant
  pub attributes : List (Bytes × Bytes)
  pub image_urls : List Bytes

pub record CategoryFacetVal : Type 0 where
  pub value : Bytes
  pub count : ℕ

pub record CategoryFacet : Type 0 where
  pub key : Bytes
  pub values : List CategoryFacetVal

pub record CategoryPage : Type 0 where
  pub slug : Bytes
  pub name : Bytes
  pub description : Bytes
  pub product_ids : List Bytes
  pub total_count : ℕ
  pub page : ℕ
  pub page_size : ℕ
  pub facets : List CategoryFacet
  pub sort_option : Bytes

pub record ApiMeta : Type 0 where
  pub page : ℕ
  pub page_size : ℕ
  pub total_count : ℕ
  pub total_pages : ℕ
  pub next_cursor : Bytes

-- One of the maps in the `Data` of a response.
pub record ApiItem : Type 0 where
  pub id : Bytes
  pub name : Bytes
  pub score : ℕ

pub record ApiResponse : Type 0 where
  pub data_items : List ApiItem
  pub meta : ApiMeta
  pub request_id : Bytes
  pub server_time : Bytes

pub record FeatureFlag : Type 0 where
  pub name : Bytes
  pub description : Bytes
  pub enabled : Bool
  pub rollout : ℕ
  pub variants : List Bytes
  pub updated_at : Bytes

-- What `json.Marshal` is called with.
pub data Shape : Type 0 where
  session : SessionData → Shape
  profile : UserProfile → Shape
  product : ProductDetail → Shape
  page : CategoryPage → Shape
  response : ApiResponse → Shape
  flag : FeatureFlag → Shape
