-- ===== src/Tools/DataLoader/Generator/Tests.antt =====
-- A generator whose random numbers are all 0.
use redis_replication_contro.Base.{ℕ, zero, suc, ◌≡◌, ◌≢◌, refl, some, List, [], ◌∷◌, ◌++◌}
use redis_replication_contro.Base.Bytes.{Bytes, codes}
use redis_replication_contro.Strconv.{format_nat}
use redis_replication_contro.Tools.FailoverProbe.Settings.{sample_key}
use redis_replication_contro.Tools.DataLoader.Words
use redis_replication_contro.Tools.DataLoader.Generator.Shapes.{Generator}
use redis_replication_contro.Tools.DataLoader.Generator.Tables
use redis_replication_contro.Tools.DataLoader.Generator.Draws.{
  Source, rnd_n, repeat, on, ◌>>=◌, pure,
}
use redis_replication_contro.Tools.DataLoader.Generator.Values.{make_ip, make_ips}
use redis_replication_contro.Tools.DataLoader.Generator.Pairs.{Tools, new_generator, gen_key_value}
use redis_replication_contro.Tools.DataLoader.Generator.Keys.{gen_key_value-key}

abbrev zeros : Source
zeros = record { intn = λ k n. 0; read = λ k i. 0 }

abbrev tools : Tools
tools = record { stamp = λ minutes. []; marshal = λ shape. codes "null" }

abbrev copies : ℕ → List Bytes
copies zero = []
copies (suc n) = codes "10.0.0.1" ∷ copies n

abbrev made : Generator
made = record {
  first_names = Tables.first_names;
  last_names = Tables.last_names;
  domains = Tables.domains;
  user_agents = Tables.user_agents;
  countries = Tables.countries;
  categories = Tables.categories;
  products = Tables.products;
  api_paths = Tables.api_paths;
  feature_flags = Tables.feature_flags;
  ips = copies 120;
}

made_by_zeros : (new_generator zeros 0).0 ≡ some made
unfolding new_generator make_ips make_ip repeat rnd_n Words.rnd_n ◌>>=◌ on pure format_nat
made_by_zeros = refl

gen_key_value-key_example :
    (pair : Bytes × Bytes) × (((gen_key_value tools made (codes "ld") 2 zeros 480).0 ≡ some pair)
      × ((rest : Bytes) × ((pair.0 ≡ codes "ld" ++ b':' ∷ rest)
            × (pair.0 ≢ sample_key (codes "ld") 2 0))))
gen_key_value-key_example =
    gen_key_value-key zeros (λ k n h. h) tools made 0 made_by_zeros (codes "ld") 2 480 2 0 refl
