-- ===== src/WgServer/Network/Clients.antt =====
-- What a client reads in its configuration (internal/wgserver/server.go).
use wg_proxy.Common.{◌≡◌, refl, true, some, [], ◌∷◌}
use wg_proxy.Common.Bytes.{codes}
use wg_proxy.Common.Ini.{is_line, values, values-ini}
use wg_proxy.WgServer.Server.{ClientConfig}
use wg_proxy.WgServer.Network.{to_ini}

-- A configuration whose texts hold no line feed is read back: under the seven keys stand the
-- client's key and address, the DNS server, the server's key and endpoint, the networks, and 25.
pub values-to_ini :
    (c : ClientConfig)
    → is_line c.private_key ≡ true
    → is_line c.address ≡ true
    → is_line c.dns ≡ true
    → is_line c.server_pub_key ≡ true
    → is_line c.endpoint ≡ true
    → is_line c.allowed_ips ≡ true
    → values (to_ini c)
      ≡ some c.private_key
        ∷ some c.address
        ∷ some c.dns
        ∷ some c.server_pub_key
        ∷ some c.endpoint
        ∷ some c.allowed_ips
        ∷ some (codes "25")
        ∷ []
unfolding to_ini is_line
values-to_ini c a b d e f g = values-ini _ record {
  private_key = a;
  address = b;
  dns = d;
  public_key = e;
  endpoint = f;
  allowed_ips = g;
  keepalive = refl;
}
