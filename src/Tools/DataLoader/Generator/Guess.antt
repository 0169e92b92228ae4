-- ===== src/Tools/DataLoader/Generator/Guess.antt =====
-- The product keys that tools/failover-probe/main.go guesses, and the identifiers of products.
use redis_replication_contro.Base.{
  ℕ, ◌+◌, ◌%◌, ◌<◌, ◌≤◌, drop, drop-append_self, ◌≡◌, ◌≢◌, refl, ap, sym, ◌∙◌, [], ◌∷◌, ◌++◌,
  append_assoc, arith, length, All,
}
use redis_replication_contro.Base.Bytes.{Bytes, codes, to_lower}
use redis_replication_contro.Strconv.{format_nat}
use redis_replication_contro.Strconv.RoundTrip.{format_nat-All, IsDigit}
use redis_replication_contro.Tools.FailoverProbe.Settings.{sample_key}
use redis_replication_contro.Tools.DataLoader.Words.Laws.{char_at}
use redis_replication_contro.Tools.DataLoader.Generator.Shapes.{ProductTemplate}
use redis_replication_contro.Tools.DataLoader.Generator.Draws.{Source}
use redis_replication_contro.Tools.DataLoader.Generator.Values.{numbered}
use redis_replication_contro.Tools.DataLoader.Generator.Catalog.{without_spaces, product_id}
use redis_replication_contro.Tools.DataLoader.Generator.Total.{Gives, ◌▷◌, pure-Gives, rnd_n-Total}

-- The key that the probe guesses for a product, without the prefix.
abbrev guess : ℕ → Bytes
guess n = codes ":cache:product:prod_" ++ format_nat n

-- A key under the prefix that is not the guess `n`.
abbrev pub IsKey : Bytes → ℕ → Bytes × Bytes → Type 0
IsKey prefix n pair =
    (kind : Bytes) × ((pair.0 ≡ prefix ++ kind)
      × ((kind ≢ guess n) × ((rest : Bytes) × (kind ≡ b':' ∷ rest))))

pub differ_at : (i : ℕ) (s t : Bytes) → char_at s i ≢ char_at t i → s ≢ t
differ_at i s t h e = h (ap (λ u. char_at u i) e)

first_digit : (s : Bytes) → All IsDigit s → char_at s 0 ≤ b'9'
first_digit [] h = omega arith
first_digit (c ∷ s) (h, hs) = omega arith

first-append : (s t : Bytes) → b'9' < char_at s 0 → char_at (s ++ t) 0 ≡ char_at s 0
first-append [] t h = absurd (omega arith)
first-append (c ∷ s) t h = refl

-- A product whose brand does not begin with a digit.
abbrev pub HasBrand : ProductTemplate → Type 0
HasBrand tpl = b'9' < char_at (to_lower (without_spaces tpl.brand)) 0

-- The identifier of a product with a brand.
abbrev IsBranded : Bytes → Type 0
IsBranded pid = (rest : Bytes) × ((pid ≡ codes "prod_" ++ rest) × (b'9' < char_at rest 0))

pub product_id-Gives :
    {rng : Source} (tpl : ProductTemplate) → HasBrand tpl → Gives rng IsBranded (product_id tpl)
unfolding product_id numbered
product_id-Gives tpl h =
    let brand = to_lower (without_spaces tpl.brand) in
    rnd_n-Total 9000 ▷ λ k. pure-Gives _ (
      _,
      (
        refl,
        ground (
          arith,
          append_assoc brand (codes "_") (format_nat (1000 + k)),
          first-append brand (codes "_" ++ format_nat (1000 + k)),
        ),
      ),
    )

pub branded_differs :
    (pid : Bytes) (n : ℕ) → IsBranded pid → codes ":cache:product:" ++ pid ≢ guess n
branded_differs pid n (rest, (e, h)) same = omega (
  arith,
  ap (λ u. char_at u 20) (ap (λ u. codes ":cache:product:" ++ u) (sym e) ∙ same),
  first_digit (format_nat n) (format_nat-All n),
)

sample_key_product :
    (prefix : Bytes) (i draw : ℕ)
    → i % 8 ≡ 2
    → sample_key prefix i draw ≡ prefix ++ guess (1000 + i % 9000)
unfolding sample_key
sample_key_product prefix i draw e = simp e

append_cancel : (s t u : Bytes) → s ++ t ≡ s ++ u → t ≡ u
append_cancel s t u e = sym (drop-append_self s t) ∙ ap (drop (length s)) e ∙ drop-append_self s u

pub not_guessed :
    (prefix : Bytes) (i draw : ℕ) (pair : Bytes × Bytes)
    → i % 8 ≡ 2
    → IsKey prefix (1000 + i % 9000) pair
    → (rest : Bytes) × ((pair.0 ≡ prefix ++ b':' ∷ rest) × (pair.0 ≢ sample_key prefix i draw))
not_guessed prefix i draw pair two (kind, (e, (differs, (rest, same)))) =
    let guessed = sample_key_product prefix i draw two in
    (
      rest,
      (
        e ∙ ap (λ u. prefix ++ u) same,
        λ found. differs (append_cancel prefix kind _ (sym e ∙ found ∙ guessed)),
      ),
    )
