-- ===== src/WgServer/Members/Sync.antt =====
-- The interface and the store have the same clients (internal/wgserver/server.go).
use wg_proxy.Common.{ℕ, ◌≡◌, inl, inr, false, true, none, some, List, All}
use wg_proxy.Common.Bytes.{Bytes}
use wg_proxy.Common.Errors.{ok}
use wg_proxy.WgServer.Peers.{written}
use wg_proxy.WgServer.Server.{Server, Answers, add_peer, remove_peer}
use wg_proxy.WgServer.Server.Clients.{IsDistinct}
use wg_proxy.WgServer.Server.Added.{add_peer-IsAdded}
use wg_proxy.WgServer.Server.Unfailing.{add_peer-IsWhole, remove_peer-cases}
use wg_proxy.WgServer.Gateway.{Boot, start}
use wg_proxy.WgServer.Members.{by_key}
use wg_proxy.WgServer.Members.Store.{on_interface, InSync, key}
use wg_proxy.WgServer.Members.Changes.{IsAdded-InSync, IsRemoved-InSync}
use wg_proxy.WgServer.Members.Booting.{start-InSync}

-- A server that was started and went on with `AddPeer` and `RemovePeer`, where the commands, also
-- those for the stored clients at the start, and the writes of the peers file succeed, a new key is
-- nobody's, and the clients that were loaded have keys of their own.
pub data Serves (ip_text : List ℕ → Bytes) : Server → Type 0 where
  starts :
      (b : Boot) (s t : Server)
      → s.running ≡ false
      → start ip_text b s ≡ some (t, none)
      → All (λ p. b.installs (key p) ≡ true) t.peers.peers
      → IsDistinct key t.peers.peers
      → Serves ip_text t
  adds :
      (a : Answers) (coded : Bytes → Bytes) (name : Bytes) (s : Server)
      → Serves ip_text s
      → a.wg_set ≡ none
      → a.writing ≡ written coded
      → ((keys : Bytes × Bytes) → a.keys ≡ ok keys → by_key s.peers.peers keys.1 ≡ false)
      → Serves ip_text (add_peer ip_text a name s).0
  removes :
      (coded : Bytes → Bytes) (name : Bytes) (s : Server)
      → Serves ip_text s
      → Serves ip_text (remove_peer true (written coded) name s).0

Serves-InSync : {ip_text : List ℕ → Bytes} {s : Server} → Serves ip_text s → InSync s
Serves-InSync {ip_text = ip_text} (starts b s t down e all d) =
    start-InSync ip_text b s t down e all d
Serves-InSync {ip_text = ip_text} (adds a coded name s r set wrote new) =
    elim (add_peer-IsWhole ip_text a name s coded set wrote) [
      | inl same ↦ rw same (Serves-InSync r)
      | inr (c, e) ↦
          let (p, h) = add_peer-IsAdded ip_text a name s (add_peer ip_text a name s).0 c e in
          IsAdded-InSync a name s (add_peer ip_text a name s).0 c p
            (new (p.private_key, p.public_key) h.keyed) h (Serves-InSync r)
    ]
Serves-InSync (removes coded name s r) = elim (remove_peer-cases coded name s) [
  | inl same ↦ rw same (Serves-InSync r)
  | inr (p, h) ↦
      IsRemoved-InSync name s (remove_peer true (written coded) name s).0 p h (Serves-InSync r)
]

-- From a start without an error on that takes each stored client to the interface, after any calls
-- of `AddPeer` and `RemovePeer` for which the interface and the peers file take the change, where
-- no two clients share a key: the interface knows exactly the public keys of the clients of the
-- store.
pub Serves-same :
    {ip_text : List ℕ → Bytes} {s : Server}
    → Serves ip_text s
    → (j : Bytes) → on_interface s j ≡ by_key s.peers.peers j
Serves-same r = (Serves-InSync r).same
