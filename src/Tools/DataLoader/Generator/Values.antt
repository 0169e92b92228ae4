-- ===== src/Tools/DataLoader/Generator/Values.antt =====
-- The values of tools/data-loader/main.go, in the order in which their parts are drawn. `stamp` is the
-- text of the present time plus some minutes (`time.Now`, `Format`).
use redis_replication_contro.Base.{ℕ, ◌+◌, ◌*◌, ◌==◌, Bool, List, [], ◌∷◌, ◌++◌, take}
use redis_replication_contro.Base.Int.{ℤ, pos, sub_ℕ}
use redis_replication_contro.Base.Bytes.{Bytes, codes, to_lower}
use redis_replication_contro.Strconv.{format_nat}
use redis_replication_contro.Tools.DataLoader.Generator.Shapes.{
  Generator, SessionData, UserAddress, UserProfile,
}
use redis_replication_contro.Tools.DataLoader.Generator.Draws.{
  Gen, ◌>>=◌, pure, rnd_n, uuid, pick, repeat, pad_5,
}

-- `fmt.Sprintf("<prefix>%d", low+rndN(n))`
unfoldable pub numbered : Bytes → ℕ → ℕ → Gen Bytes
numbered prefix low n = do k ← rnd_n n; pure (prefix ++ format_nat (low + k))

unfoldable pub flip : Gen Bool
flip = do k ← rnd_n 2; pure (k == 1)

unfoldable pub make_ip : Gen Bytes
make_ip = do
  a ← rnd_n 215
  b ← rnd_n 256
  c ← rnd_n 256
  d ← rnd_n 254
  pure (
      format_nat (10 + a)
      ++ b'.' ∷ format_nat b
      ++ b'.' ∷ format_nat c
      ++ b'.' ∷ format_nat (1 + d))

unfoldable pub make_ips : ℕ → Gen (List Bytes)
unfolding make_ip
make_ips n = repeat n make_ip

abbrev pub ago : ℕ → ℤ
ago minutes = sub_ℕ 0 minutes

unfoldable pub session_data : (ℤ → Bytes) → Generator → Gen SessionData
unfolding numbered
session_data stamp g = do
  user_id ← numbered (codes "usr_") 100000 900000
  since ← rnd_n 7200
  left ← rnd_n 45
  user_agent ← pick g.user_agents
  ip ← pick g.ips
  country ← pick g.countries
  device ← uuid
  pure (record {
    user_id = user_id;
    created_at = stamp (ago (1 + since));
    expires_at = stamp (pos (15 + left));
    user_agent = user_agent;
    ip = ip;
    country = country;
    device_id = take 13 device;
  })

abbrev tiers : List Bytes
tiers = codes "free" ∷ codes "pro" ∷ codes "enterprise" ∷ []

abbrev streets : List Bytes
streets =
    codes "Main"
    ∷ codes "Oak"
    ∷ codes "Elm"
    ∷ codes "Pine"
    ∷ codes "Maple"
    ∷ codes "Cedar"
    ∷ codes "Birch"
    ∷ codes "Walnut"
    ∷ []

abbrev cities : List Bytes
cities =
    codes "New York"
    ∷ codes "Berlin"
    ∷ codes "London"
    ∷ codes "Tokyo"
    ∷ codes "Paris"
    ∷ codes "Sydney"
    ∷ codes "Toronto"
    ∷ codes "Amsterdam"
    ∷ codes "Stockholm"
    ∷ codes "Singapore"
    ∷ []

unfoldable pub email : Generator → Gen Bytes
email g = do
  first ← pick g.first_names
  last ← pick g.last_names
  domain ← pick g.domains
  pure (to_lower first ++ b'.' ∷ to_lower last ++ b'@' ∷ domain)

unfoldable pub preferences : Gen (List (Bytes × Bool))
unfolding flip
preferences = do
  email_newsletter ← flip
  push_notifications ← flip
  dark_mode ← flip
  two_factor ← flip
  pure (
      (codes "email_newsletter", email_newsletter)
      ∷ (codes "push_notifications", push_notifications)
      ∷ (codes "dark_mode", dark_mode)
      ∷ (codes "two_factor", two_factor)
      ∷ [])

unfoldable pub address : Generator → Gen UserAddress
address g = do
  number ← rnd_n 9900
  street ← pick streets
  city ← pick cities
  zip ← rnd_n 100000
  country ← pick g.countries
  pure (record {
    kind = codes "shipping";
    street = format_nat (100 + number) ++ b' ' ∷ street ++ codes " Street";
    city = city;
    zip = pad_5 zip;
    country = country;
  })

-- After the user's name and the hours since the creation were drawn.
unfoldable pub user_profile : (ℤ → Bytes) → Generator → Bytes → ℕ → Gen UserProfile
unfolding email preferences address
user_profile stamp g uid hours = do
  first_name ← pick g.first_names
  last_name ← pick g.last_names
  mail ← email g
  country ← pick g.countries
  login ← rnd_n 48
  tier ← pick tiers
  prefs ← preferences
  home ← address g
  pure (record {
    user_id = uid;
    first_name = first_name;
    last_name = last_name;
    email = mail;
    country = country;
    created_at = stamp (ago (60 * hours));
    last_login_at = stamp (ago (60 * login));
    tier = tier;
    preferences = prefs;
    addresses = home ∷ [];
  })
