-- ===== src/WgServer/Addresses.antt =====
-- The addresses of the VPN clients (internal/wgserver/server.go): `getServerIP` and `allocateIP`.
-- An address is its bytes, as `net.ParseCIDR` returns them: four for an IPv4 subnet.
pub mod Allocation
use Prim.Native.Nat.{bit_and}
use wg_proxy.Common.{
  ℕ, zero, suc, ◌+◌, Bool, true, false, not, ◌&&◌, ◌||◌, Option, none, some, List, [], ◌∷◌, ◌++◌,
  ◌==◌, map, if◌then◌else◌,
}
use wg_proxy.Common.Bytes.{Bytes, codes, bytes_eq}
use wg_proxy.Common.Errors.{message, wrapping, Result, ok, err}
use wg_proxy.WgServer.Peers.{Peer}

-- `net.IPNet`
pub record Subnet : Type 0 where
  pub ip : List ℕ
  pub mask : List ℕ

masked_eq : List ℕ → List ℕ → List ℕ → Bool
masked_eq [] [] [] = true
masked_eq (a ∷ xs) (m ∷ ms) (b ∷ ys) = bit_and a m == bit_and b m && masked_eq xs ms ys
masked_eq _ _ _ = false

-- `IPNet.Contains`, for an address of the subnet's own length
unfoldable pub contains : Subnet → List ℕ → Bool
unfolding masked_eq
contains net ip = masked_eq net.ip net.mask ip

-- A copy of the address with another last byte. An address is never empty.
unfoldable pub set_last : List ℕ → ℕ → List ℕ
set_last [] b = []
set_last (a ∷ []) b = b ∷ []
set_last (a ∷ c ∷ rest) b = a ∷ set_last (c ∷ rest) b

-- `strings.Split(s, "/")[0]`
unfoldable pub before_slash : Bytes → Bytes
before_slash [] = []
before_slash (c ∷ s) = if c == b'/' then [] else c ∷ before_slash s

unfoldable pub mem_text : Bytes → List Bytes → Bool
unfolding bytes_eq
mem_text s [] = false
mem_text s (t ∷ ts) = bytes_eq s t || mem_text s ts

none_left : Bytes → Option Bytes → Result Bytes
none_left configured none = err (message (codes "no available IPs in subnet " ++ configured))
none_left configured (some s) = ok s

-- `ip_text` is `net.IP.String`, and the subnet what `net.ParseCIDR` makes of the configured one.
module _ (ip_text : List ℕ → Bytes) where
  -- `getServerIP`
  unfoldable pub server_ip : Result Subnet → Bytes
  unfolding set_last
  server_ip (err e) = codes "10.100.0.1"
  server_ip (ok net) = ip_text (set_last net.ip 1)

  -- The keys of the map `used`.
  abbrev pub used : Result Subnet → List Peer → List Bytes
  used subnet peers = server_ip subnet ∷ map (λ p. before_slash p.allowed_ip) peers

  abbrev pub is_free : Subnet → List Bytes → ℕ → Bool
  is_free net taken i =
      contains net (set_last net.ip i) && not (mem_text (ip_text (set_last net.ip i)) taken)

  -- The loop, from `i` on, with the rounds that are left.
  unfoldable pub search_from : Subnet → List Bytes → ℕ → ℕ → Option Bytes
  search_from net taken zero i = none
  search_from net taken (suc rounds) i =
      let later = search_from net taken rounds (i + 1) in
      if is_free net taken i then some (ip_text (set_last net.ip i)) else later

  -- `allocateIP`: `for i := 2; i < 254; i++` makes 252 rounds.
  unfoldable pub allocate_ip : Bytes → Result Subnet → List Peer → Result Bytes
  unfolding search_from none_left
  allocate_ip configured (err e) peers = err (wrapping (codes "parsing subnet") e)
  allocate_ip configured (ok net) peers =
      none_left configured (search_from net (used (ok net) peers) 252 2)
