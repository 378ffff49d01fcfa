-- ===== src/Tests/Countries.antt =====
-- The proxies of the countries.
use mathlib.Core.List.{Memᴰ}
use mathlib.Core.List.Permᴰ
use wg_proxy.Common.{ℕ, true, false, List, arith, ◌≡◌, refl, Bool, not, some, [], ◌∷◌, ◌==◌, All}
use wg_proxy.Common.Bytes.{Bytes, codes, bytes_eq, is_empty}
use wg_proxy.Proxy.Countries.{
  Grouping, Countries, group, no_countries, start_country_proxies, port_of_country,
}
use wg_proxy.Proxy.Countries.Serving.{IsServing, start_country_proxies-IsServing}
use wg_proxy.Tests.Data.{cells, listed}

-- Port 1082 is taken.
abbrev listens : ℕ → Bool
listens port = not (port == 1082)

abbrev in_order : Grouping → Grouping
in_order gs = gs

started_ports :
    (start_country_proxies listens in_order 1083 cells listed no_countries).listeners
    ≡ (1083, 0 ∷ []) ∷ (1084, 1 ∷ 2 ∷ []) ∷ []
unfolding start_country_proxies bytes_eq
started_ports = refl

-- A country whose port could not be listened on is in the mapping all the same.
not_listening :
    (port_of_country
        (start_country_proxies listens in_order 1081 cells listed no_countries).mapping
        (codes "DE")
      ≡ some 1082)
    × ((start_country_proxies listens in_order 1081 cells listed no_countries).listeners
        ≡ (1081, 0 ∷ []) ∷ [])
unfolding start_country_proxies port_of_country bytes_eq
not_listening = (refl, refl)

abbrev opened : Countries
opened = start_country_proxies listens in_order 1081 cells listed no_countries

start_country_proxies-IsServing_example :
    All (IsServing listens cells opened.mapping) opened.listeners
    × ((p : ℕ)
        → Memᴰ p listed
        → is_empty (cells p).country ≡ false
        → (port : ℕ) × (ps : List ℕ) × (port_of_country opened.mapping (cells p).country
            ≡ some port)
          × Memᴰ p ps
          × (listens port ≡ true → Memᴰ (port, ps) opened.listeners))
    × ((k j : Bytes) (port : ℕ)
        → port_of_country opened.mapping k ≡ some port
        → port_of_country opened.mapping j ≡ some port
        → k ≡ j)
unfolding group bytes_eq
start_country_proxies-IsServing_example =
    start_country_proxies-IsServing listens in_order 1081 cells listed opened (λ gs. Permᴰ.refl gs)
      (omega arith) refl
