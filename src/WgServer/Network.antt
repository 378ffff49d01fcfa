-- ===== src/WgServer/Network.antt =====
-- The VPN server's network (internal/wgserver/server.go): the interface of the default route, the
-- public address, and the configuration that a client gets as a text. What the commands and the
-- package net return is an argument.
pub mod Clients
use wg_proxy.Common.{Bool, not, ◌&&◌, List, [], ◌∷◌, if◌then◌else◌}
use wg_proxy.Common.Bytes.{Bytes, codes, bytes_eq}
use wg_proxy.Common.Errors.{Result, ok, err}
use wg_proxy.Common.Strings.{fields}
use wg_proxy.Common.Ini.{ini}
use wg_proxy.WgServer.Server.{ClientConfig}

-- `ClientConfig.ToINI`
unfoldable pub to_ini : ClientConfig → Bytes
to_ini c = ini record {
  private_key = c.private_key;
  address = c.address;
  dns = c.dns;
  public_key = c.server_pub_key;
  endpoint = c.endpoint;
  allowed_ips = c.allowed_ips;
  keepalive = codes "25";
}

-- The loop over the words of the default route.
unfoldable pub after_dev : List Bytes → Bytes
after_dev [] = codes "eth0"
after_dev (f ∷ []) = codes "eth0"
after_dev (f ∷ g ∷ fs) = if bytes_eq f (codes "dev") then g else after_dev (g ∷ fs)

-- `getDefaultInterface`, given the output of `ip route show default`
unfoldable pub get_default_interface : Result Bytes → Bytes
unfolding after_dev
get_default_interface (err e) = codes "eth0"
get_default_interface (ok out) = after_dev (fields out)

-- A `net.Addr` of the interface: `loopback`, `is_ipv4` and `text` are the results of `IsLoopback`,
-- of `To4` and of `String` on the address of a `net.IPNet`.
pub data Addr : Type 0 where
  ip_net : Bool → Bool → Bytes → Addr
  other : Addr

-- The loop over the addresses.
unfoldable pub first_public : List Addr → Bytes
first_public [] = []
first_public (other ∷ rest) = first_public rest
first_public (ip_net loopback is_ipv4 text ∷ rest) =
    if not loopback && is_ipv4 then text else first_public rest

-- `detectPublicIP`: `addresses` answers for an interface, with `net.InterfaceByName` and `Addrs`.
unfoldable pub detect_public_ip : Result Bytes → (Bytes → Result (List Addr)) → Bytes
detect_public_ip route addresses = elim (addresses (get_default_interface route)) [
  | err e ↦ []
  | ok found ↦ first_public found
]
