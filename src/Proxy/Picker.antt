-- ===== src/Proxy/Picker.antt =====
-- The choice of a backend (internal/proxy/server.go): `Server.pickBackend` over the manager's
-- tunnels and `countryBackendPicker.pick` over those of a country do the same to a list of tunnels
-- and a counter of 64 bits.
pub mod RoundRobin
use wg_proxy.Common.{
  ℕ, zero, suc, ◌+◌, ◌%◌, ◌^◌, Option, none, some, List, [], ◌∷◌, ◌++◌, keep, length, get_elem?,
  ◌>>=◌,
}
use wg_proxy.Common.Bytes.{Bytes, codes, decimal}
use wg_proxy.Tunnels.{Tunnel, Cells, is_healthy}

-- `fmt.Sprintf("127.0.0.1:%d", t.ProxyPort)`
pub backend_address : Tunnel → Bytes
backend_address t = codes "127.0.0.1:" ++ decimal t.proxy_port

-- What a pick leaves: the counter, and the chosen address and tunnel, or `none` for `"", nil`.
pub record Pick : Type 0 where
  pub counter : ℕ
  pub chosen : Option (Bytes × ℕ)

abbrev pub healthy : Cells → List ℕ → List ℕ
healthy cells tunnels = keep (λ p. is_healthy (cells p)) tunnels

-- The part behind `len(healthy) == 0`; `none` is a panic of `healthy[idx]`.
choose : Cells → List ℕ → ℕ → Option Pick
choose cells [] counter = some (record { counter = counter; chosen = none })
choose cells (p ∷ ps) counter = do
  t ← get_elem? (p ∷ ps) (counter % length (p ∷ ps))
  some (record { counter = (counter + 1) % 2 ^ 64; chosen = some (backend_address (cells t), t) })

-- `pickBackend`, and `countryBackendPicker.pick` by one connection at a time
unfoldable pub pick : Cells → List ℕ → ℕ → Option Pick
unfolding choose
pick cells tunnels counter = choose cells (healthy cells tunnels) counter

-- The tunnels of `n` picks in a row, while no tunnel changes.
unfoldable pub picks : Cells → List ℕ → ℕ → ℕ → Option (List ℕ)
picks cells tunnels counter zero = some []
picks cells tunnels counter (suc n) = do
  r ← pick cells tunnels counter
  (_, t) ← r.chosen
  rest ← picks cells tunnels r.counter n
  some (t ∷ rest)
