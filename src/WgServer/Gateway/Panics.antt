-- ===== src/WgServer/Gateway/Panics.antt =====
-- When `Start` panics in its log (internal/wgserver/server.go).
use wg_proxy.Common.{◌≡◌}
use wg_proxy.Common.Bytes.{Bytes}
use wg_proxy.WgServer.Keys.{load_or_generate_keys}
use wg_proxy.WgServer.Server.{Server}
use wg_proxy.WgServer.Gateway.{Boot, keys_of}

-- The public key that a start loads or makes.
abbrev pub loaded_key : Boot → Server → Bytes
loaded_key b s = (load_or_generate_keys b.keys (keys_of s)).0.public_key

abbrev HasKey : Bytes → Server → Type 0
HasKey key s = s.public_key ≡ key
