-- ===== src/Tools/DataLoader/Generator/Catalog.antt =====
-- The products and the category pages of tools/data-loader/main.go.
use redis_replication_contro.Base.{ℕ, ◌+◌, ◌==◌, not, List, [], ◌∷◌, ◌++◌, ltb, keep_if}
use redis_replication_contro.Base.Bytes.{Bytes, codes, to_lower}
use redis_replication_contro.Strconv.{format_nat}
use redis_replication_contro.Tools.DataLoader.Generator.Shapes.{
  Category, ProductTemplate, ProductVariant, ProductDetail, CategoryFacetVal, CategoryFacet,
  CategoryPage,
}
use redis_replication_contro.Tools.DataLoader.Generator.Draws.{
  Gen, ◌>>=◌, pure, rnd_n, pick, repeat,
}
use redis_replication_contro.Tools.DataLoader.Generator.Values.{numbered}

abbrev pub without_spaces : Bytes → Bytes
without_spaces s = keep_if (λ c. not (c == b' ')) s

-- `prod_<brand>_<number>`
unfoldable pub product_id : ProductTemplate → Gen Bytes
product_id tpl =
    numbered (codes "prod_" ++ (to_lower (without_spaces tpl.brand) ++ codes "_")) 1000 9000

-- `float64(5+rndN(99500))/100 + 4.99`
unfoldable pub price : Gen ℕ
price = do n ← rnd_n 99500; pure (5 + n)

unfoldable pub variant : Bytes → Bytes → Gen ProductVariant
unfolding price
variant pid size = do
  amount ← price
  stock ← rnd_n 500
  pure (record {
    sku = pid ++ b'-' ∷ size ++ codes "-BLK";
    size = size;
    color = codes "Black";
    price = amount;
    stock = stock;
  })

abbrev materials : List Bytes
materials =
    codes "Aluminium"
    ∷ codes "Stainless Steel"
    ∷ codes "Carbon Fibre"
    ∷ codes "ABS Plastic"
    ∷ codes "Silicone"
    ∷ codes "Leather"
    ∷ codes "Cotton"
    ∷ codes "Polyester"
    ∷ []

unfoldable pub attributes : Gen (List (Bytes × Bytes))
attributes = do
  weight ← rnd_n 5000
  width ← rnd_n 300
  height ← rnd_n 300
  depth ← rnd_n 100
  material ← pick materials
  pure (
      (codes "weight", format_nat (100 + weight) ++ codes "g")
      ∷ (
        codes "dimensions",
        format_nat (50 + width)
            ++ b'x' ∷ format_nat (50 + height)
            ++ b'x' ∷ format_nat (10 + depth)
            ++ codes "mm",
      )
      ∷ (codes "material", material)
      ∷ [])

abbrev image_url : Bytes → Bytes → Bytes
image_url pid name =
    codes "https://cdn.example.com/products/" ++ (pid ++ (codes "/" ++ (name ++ codes ".jpg")))

unfoldable pub product_detail : ProductTemplate → Bytes → Gen ProductDetail
unfolding price variant attributes
product_detail tpl pid = do
  amount ← price
  in_stock ← rnd_n 10
  rating ← rnd_n 21
  reviews ← rnd_n 5000
  small ← variant pid (codes "S")
  medium ← variant pid (codes "M")
  large ← variant pid (codes "L")
  attrs ← attributes
  pure (record {
    id = pid;
    name = tpl.name;
    brand = tpl.brand;
    category = tpl.category;
    price = amount;
    currency = codes "USD";
    in_stock = ltb 1 in_stock;
    rating = 30 + rating;
    review_count = reviews;
    variants = small ∷ medium ∷ large ∷ [];
    attributes = attrs;
    image_urls =
        image_url pid (codes "main")
        ∷ image_url pid (codes "alt1")
        ∷ image_url pid (codes "alt2")
        ∷ [];
  })

abbrev facet_val : Bytes → ℕ → CategoryFacetVal
facet_val value count = record { value = value; count = count }

abbrev facets : List CategoryFacet
facets =
    record {
      key = codes "brand";
      values =
          facet_val (codes "SoundMax") 42
          ∷ facet_val (codes "VisioTech") 38
          ∷ facet_val (codes "KeyCraft") 25
          ∷ [];
    }
    ∷ record {
      key = codes "price";
      values =
          facet_val (codes "0-50") 120
          ∷ facet_val (codes "50-200") 89
          ∷ facet_val (codes "200+") 31
          ∷ [];
    }
    ∷ []

abbrev sort_options : List Bytes
sort_options =
    codes "relevance"
    ∷ codes "price_asc"
    ∷ codes "price_desc"
    ∷ codes "rating"
    ∷ codes "newest"
    ∷ []

unfoldable pub category_page : Category → Gen CategoryPage
category_page cat = do
  count ← rnd_n 200
  ids ← repeat (50 + count) (numbered (codes "prod_" ++ (to_lower cat.slug ++ codes "_")) 1000 9000)
  total ← rnd_n 4500
  page ← rnd_n 10
  option ← pick sort_options
  pure (record {
    slug = cat.slug;
    name = cat.name;
    description = cat.description;
    product_ids = ids;
    total_count = 500 + total;
    page = 1 + page;
    page_size = 50;
    facets = facets;
    sort_option = option;
  })
