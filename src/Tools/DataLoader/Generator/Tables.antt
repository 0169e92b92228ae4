-- ===== src/Tools/DataLoader/Generator/Tables.antt =====
-- The tables of `newGenerator` in tools/data-loader/main.go.
use redis_replication_contro.Base.{List, [], ◌∷◌}
use redis_replication_contro.Base.Bytes.{Bytes, codes}
use redis_replication_contro.Tools.DataLoader.Generator.Shapes.{
  Category, ProductTemplate, FeatureTemplate,
}

abbrev pub first_names : List Bytes
first_names =
    codes "Emma"
    ∷ codes "Liam"
    ∷ codes "Olivia"
    ∷ codes "Noah"
    ∷ codes "Ava"
    ∷ codes "Oliver"
    ∷ codes "Sophia"
    ∷ codes "Elijah"
    ∷ codes "Isabella"
    ∷ codes "James"
    ∷ codes "Mia"
    ∷ codes "William"
    ∷ codes "Charlotte"
    ∷ codes "Benjamin"
    ∷ codes "Amelia"
    ∷ codes "Lucas"
    ∷ codes "Harper"
    ∷ codes "Henry"
    ∷ codes "Evelyn"
    ∷ codes "Alexander"
    ∷ codes "Abigail"
    ∷ codes "Daniel"
    ∷ codes "Emily"
    ∷ codes "Michael"
    ∷ []

abbrev pub last_names : List Bytes
last_names =
    codes "Smith"
    ∷ codes "Johnson"
    ∷ codes "Williams"
    ∷ codes "Brown"
    ∷ codes "Jones"
    ∷ codes "Garcia"
    ∷ codes "Miller"
    ∷ codes "Davis"
    ∷ codes "Rodriguez"
    ∷ codes "Martinez"
    ∷ codes "Hernandez"
    ∷ codes "Lopez"
    ∷ codes "Gonzalez"
    ∷ codes "Wilson"
    ∷ codes "Anderson"
    ∷ codes "Thomas"
    ∷ codes "Taylor"
    ∷ codes "Moore"
    ∷ codes "Jackson"
    ∷ codes "Martin"
    ∷ []

abbrev pub domains : List Bytes
domains =
    codes "gmail.com"
    ∷ codes "yahoo.com"
    ∷ codes "outlook.com"
    ∷ codes "proton.me"
    ∷ codes "icloud.com"
    ∷ codes "company.org"
    ∷ codes "startup.io"
    ∷ codes "enterprise.co"
    ∷ []

abbrev pub user_agents : List Bytes
user_agents =
    codes
      "Mozilla/5.0 (Windows NT 10.0; Win64; x64) AppleWebKit/537.36 Chrome/125.0.0.0 Safari/537.36"
    ∷ codes "Mozilla/5.0 (Macintosh; Intel Mac OS X 14_5) AppleWebKit/605.1.15 Safari/605.1.15"
    ∷ codes "Mozilla/5.0 (X11; Linux x86_64; rv:127.0) Gecko/20100101 Firefox/127.0"
    ∷ codes
        "Mozilla/5.0 (iPhone; CPU iPhone OS 17_5 like Mac OS X) AppleWebKit/605.1.15 Mobile/15E148"
    ∷ codes
        "Mozilla/5.0 (Linux; Android 14; Pixel 8 Pro) AppleWebKit/537.36 Chrome/125.0.6422.165 Mobile Safari/537.36"
    ∷ []

abbrev pub countries : List Bytes
countries =
    codes "US"
    ∷ codes "DE"
    ∷ codes "GB"
    ∷ codes "FR"
    ∷ codes "JP"
    ∷ codes "BR"
    ∷ codes "IN"
    ∷ codes "CA"
    ∷ codes "AU"
    ∷ codes "NL"
    ∷ codes "SE"
    ∷ codes "SG"
    ∷ []

abbrev pub api_paths : List Bytes
api_paths =
    codes "/api/v1/products?category=electronics&page=1&limit=50"
    ∷ codes "/api/v1/products?category=clothing&sort=price_asc&page=2"
    ∷ codes "/api/v1/users/me/orders?status=delivered&from=2024-01-01"
    ∷ codes "/api/v1/search?q=wireless+headphones&filters=brand:SoundMax,price:50-200"
    ∷ codes "/api/v1/recommendations?user_id=%s&strategy=collaborative"
    ∷ codes "/api/v1/inventory/check?sku=%s&warehouse=eu-central-1"
    ∷ codes "/api/v1/cart/%s?include=items,summary,promotions"
    ∷ codes "/api/v1/reviews?product_id=%s&sort=helpful&limit=10"
    ∷ []

abbrev pub categories : List Category
categories =
    record {
      slug = codes "electronics";
      name = codes "Electronics";
      description = codes "Phones, laptops, tablets and accessories";
    }
    ∷ record {
      slug = codes "clothing";
      name = codes "Clothing & Apparel";
      description = codes "Men's and women's fashion, shoes and accessories";
    }
    ∷ record {
      slug = codes "home-garden";
      name = codes "Home & Garden";
      description = codes "Furniture, decor, kitchen appliances and tools";
    }
    ∷ record {
      slug = codes "books";
      name = codes "Books & Media";
      description = codes "Fiction, non-fiction, e-books and audiobooks";
    }
    ∷ record {
      slug = codes "sports";
      name = codes "Sports & Outdoors";
      description = codes "Equipment, apparel and nutrition for every sport";
    }
    ∷ record {
      slug = codes "health-beauty";
      name = codes "Health & Beauty";
      description = codes "Skincare, makeup, vitamins and personal care";
    }
    ∷ record {
      slug = codes "toys";
      name = codes "Toys & Games";
      description = codes "Board games, action figures, puzzles and educational toys";
    }
    ∷ record {
      slug = codes "automotive";
      name = codes "Automotive";
      description = codes "Parts, tools, accessories and car care products";
    }
    ∷ []

abbrev pub products : List ProductTemplate
products =
    record {
      name = codes "Wireless Noise-Cancelling Headphones";
      brand = codes "SoundMax";
      category = codes "electronics";
    }
    ∷ record {
      name = codes "4K Ultra HD Smart TV 55\"";
      brand = codes "VisioTech";
      category = codes "electronics";
    }
    ∷ record {
      name = codes "Mechanical Keyboard RGB";
      brand = codes "KeyCraft";
      category = codes "electronics";
    }
    ∷ record {
      name = codes "Slim Fit Oxford Shirt";
      brand = codes "UrbanThreads";
      category = codes "clothing";
    }
    ∷ record {
      name = codes "Waterproof Hiking Boots";
      brand = codes "TrailBlazer";
      category = codes "clothing";
    }
    ∷ record {
      name = codes "Ergonomic Office Chair";
      brand = codes "ErgoPlus";
      category = codes "home-garden";
    }
    ∷ record {
      name = codes "Stainless Steel French Press";
      brand = codes "BrewMaster";
      category = codes "home-garden";
    }
    ∷ record {
      name = codes "The Silent Algorithm (Hardcover)";
      brand = codes "Penwick Press";
      category = codes "books";
    }
    ∷ record {
      name = codes "Carbon Fibre Tennis Racket";
      brand = codes "AcePro";
      category = codes "sports";
    }
    ∷ record {
      name = codes "Vitamin D3 + K2 Complex";
      brand = codes "VitaBloom";
      category = codes "health-beauty";
    }
    ∷ record {
      name = codes "Strategy Board Game: Empire Builders";
      brand = codes "GameForge";
      category = codes "toys";
    }
    ∷ record {
      name = codes "Synthetic Motor Oil 5W-30";
      brand = codes "LubeTech";
      category = codes "automotive";
    }
    ∷ []

abbrev pub feature_flags : List FeatureTemplate
feature_flags =
    record {
      name = codes "dark-mode-v2";
      description = codes "Next-gen dark mode with adaptive contrast and scheduled switching";
    }
    ∷ record {
      name = codes "checkout-redesign";
      description = codes "New single-page checkout flow with address autocomplete";
    }
    ∷ record {
      name = codes "ai-recommendations";
      description = codes "ML-powered product recommendations on homepage and PDP";
    }
    ∷ record {
      name = codes "real-time-notifications";
      description = codes "WebSocket push notifications for order status and price drops";
    }
    ∷ record {
      name = codes "loyalty-points-2.0";
      description = codes "Revamped loyalty program with tiered multipliers and partner redemption";
    }
    ∷ []
