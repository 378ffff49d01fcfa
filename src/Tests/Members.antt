-- ===== src/Tests/Members.antt =====
-- The interface of a VPN server that was started, and got a client and lost another.
use wg_proxy.Common.{◌≡◌, refl, true, false, All}
use wg_proxy.Common.Bytes.{Bytes, codes, bytes_eq}
use wg_proxy.Common.Errors.{ok, ok-inj}
use wg_proxy.WgServer.Peers.{written}
use wg_proxy.WgServer.Server.{Server, add_peer, remove_peer}
use wg_proxy.WgServer.Server.Clients.{IsDistinct}
use wg_proxy.WgServer.Members.{by_key}
use wg_proxy.WgServer.Members.Store.{key, on_interface}
use wg_proxy.WgServer.Members.Sync.{Serves, starts, adds, removes, Serves-same}
use wg_proxy.Tests.WgServer.{same, dotted, answers}
use wg_proxy.Tests.Gateway.{boot, off, on, on-peers}
use wg_proxy.Tests.Gateway

abbrev with_laptop : Server
with_laptop = (add_peer dotted (answers (written same)) (codes "laptop") on).0

abbrev without_phone : Server
without_phone = (remove_peer true (written same) (codes "phone") with_laptop).0

new_key :
    (keys : Bytes × Bytes)
    → ok (codes "l", codes "L") ≡ ok keys
    → by_key on.peers.peers keys.1 ≡ false
unfolding by_key bytes_eq
new_key keys e = rw (on-peers, ← ok-inj e) refl

installed : All (λ p. boot.installs (key p) ≡ true) on.peers.peers
installed = rw on-peers (refl, tt)

own_keys : IsDistinct key on.peers.peers
own_keys = rw on-peers (tt, tt)

served : Serves dotted without_phone
served = removes same (codes "phone") with_laptop (
    adds (answers (written same)) same (codes "laptop") on
      (starts boot off on refl Gateway.starts installed own_keys) refl refl new_key)

Serves-same_example :
    on_interface without_phone (codes "L") ≡ by_key without_phone.peers.peers (codes "L")
Serves-same_example = Serves-same served (codes "L")
