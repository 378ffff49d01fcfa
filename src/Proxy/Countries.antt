-- ===== src/Proxy/Countries.antt =====
-- The proxies of the countries: `Server.StartCountryProxies` and `GetCountryMapping`
-- (internal/proxy/server.go). A Go map is ranged over in any order, which is the argument `order`;
-- `listens` tells whether `net.Listen` takes a port.
pub mod Groups
pub mod Serving
use wg_proxy.Common.{ℕ, Bool, Option, none, some, List, [], ◌∷◌, ◌++◌, if◌then◌else◌}
use wg_proxy.Common.Bytes.{Bytes, bytes_eq, is_empty}
use wg_proxy.Tunnels.{Cells, add64}

-- The map `countries`: each key once, with its tunnels.
abbrev pub Grouping : Type 0
Grouping = List (Bytes × List ℕ)

-- `countries[country] = append(countries[country], t)`
unfoldable pub add_to : Bytes → ℕ → Grouping → Grouping
add_to country p [] = (country, p ∷ []) ∷ []
add_to country p ((k, ps) ∷ gs) =
    if bytes_eq k country then (k, ps ++ (p ∷ [])) ∷ gs else (k, ps) ∷ add_to country p gs

-- The loop over the tunnels.
unfoldable pub group : Cells → Grouping → List ℕ → Grouping
unfolding add_to
group cells gs [] = gs
group cells gs (p ∷ ps) =
    group cells (if is_empty (cells p).country then gs else add_to (cells p).country p gs) ps

-- `countryMapping`, newest entry first, and the listeners, each with its port and the tunnels that
-- `serveCountryProxy` balances.
pub record Countries : Type 0 where
  pub mapping : List (Bytes × ℕ)
  pub listeners : List (ℕ × List ℕ)

-- What `NewServer` makes.
abbrev pub no_countries : Countries
no_countries = record { mapping = []; listeners = [] }

module _ (listens : ℕ → Bool) where
  -- One round of the loop over the countries, less `port++`.
  abbrev pub open_country : Bytes → ℕ → List ℕ → Countries → Countries
  open_country country port ps s = record {
    mapping = (country, port) ∷ s.mapping;
    listeners = if listens port then s.listeners ++ ((port, ps) ∷ []) else s.listeners;
  }

  unfoldable pub open_countries : ℕ → Grouping → Countries → Countries
  open_countries port [] s = s
  open_countries port ((country, ps) ∷ gs) s =
      open_countries (add64 port 1) gs (open_country country port ps s)

  -- `StartCountryProxies` over the manager's tunnels
  unfoldable pub start_country_proxies :
      (Grouping → Grouping) → ℕ → Cells → List ℕ → Countries → Countries
  unfolding group open_countries
  start_country_proxies order base cells tunnels s =
      open_countries base (order (group cells [] tunnels)) s

-- `GetCountryMapping`, of one country
unfoldable pub port_of_country : List (Bytes × ℕ) → Bytes → Option ℕ
port_of_country [] country = none
port_of_country ((k, port) ∷ m) country =
    if bytes_eq k country then some port else port_of_country m country
