-- ===== src/WgServer/Server/Removal.antt =====
-- The removal of a client (internal/wgserver/server.go, internal/wgserver/peers.go).
use wg_proxy.Common.{
  Bool, ◌≡◌, ◌≢◌, inl, inr, refl, not, Option, none, some, List, [], ◌∷◌, Bool-cases, Option-cases,
  none-ne-some, some-inj, All,
}
use wg_proxy.Common.Bytes.{Bytes, bytes_eq}
use wg_proxy.Common.Errors.{GoError}
use wg_proxy.WgServer.Peers.{Peer, PeerStore, Writing, written, broken, save, get, remove, without}
use wg_proxy.WgServer.Server.Clients.{address, IsDistinct, AreApart}
use wg_proxy.WgServer.Server.{Server, wg, remove_peer, remove_peer_key, remove_found, after_remove}

All-without :
    (P : Peer → Type 0) (name : Bytes) (ps rest : List Peer)
    → without name ps ≡ some rest
    → All P ps
    → All P rest
unfolding without
All-without P name [] rest e h = cc
All-without P name (p ∷ ps) rest e (h, hs) = elim (Bool-cases (bytes_eq p.name name)) [
  | inl hit ↦ rw (← some-inj (rw (hit, without) at e)) hs
  | inr miss ↦ elim (Option-cases (without name ps)) [
    | inl gone ↦ absurd (none-ne-some (rw (miss, without, gone) at e))
    | inr (kept, ek) ↦
        rw (← some-inj (rw (miss, without, ek) at e)) (h, All-without P name ps kept ek hs)
  ]
]

pub IsDistinct-without :
    (key : Peer → Bytes) (name : Bytes) (ps rest : List Peer)
    → without name ps ≡ some rest
    → IsDistinct key ps
    → IsDistinct key rest
unfolding without
IsDistinct-without key name [] rest e h = cc
IsDistinct-without key name (p ∷ ps) rest e (h, hs) = elim (Bool-cases (bytes_eq p.name name)) [
  | inl hit ↦ rw (← some-inj (rw (hit, without) at e)) hs
  | inr miss ↦ elim (Option-cases (without name ps)) [
    | inl gone ↦ absurd (none-ne-some (rw (miss, without, gone) at e))
    | inr (kept, ek) ↦ rw (← some-inj (rw (miss, without, ek) at e)) (
      All-without (λ q. key p ≢ key q) name ps kept ek h,
      IsDistinct-without key name ps kept ek hs,
    )
  ]
]

save-peers : (w : Writing) (s : PeerStore) → (save w s).0.peers ≡ s.peers
unfolding save
save-peers (written coded) s = refl
save-peers (broken e f) s = refl

remove-AreApart :
    (w : Writing) (name : Bytes) (s : PeerStore) → AreApart s → AreApart (remove w name s).0
unfolding remove
remove-AreApart w name s apart = elim (Option-cases (without name s.peers)) [
  | inl e ↦ rw (e, remove) apart
  | inr (rest, e) ↦
      let kept = save-peers w (record s { peers = rest }) in
      rw (e, remove)
        (record {
          names = rw kept (IsDistinct-without (λ p. p.name) name s.peers rest e apart.names);
          addresses = rw kept (IsDistinct-without address name s.peers rest e apart.addresses);
        })
]

after_remove-peers :
    (s : Server) (r : PeerStore × Option GoError) → (after_remove s r).0.peers ≡ r.0
after_remove-peers s (store, none) = refl
after_remove-peers s (store, some e) = refl

remove_found-AreApart :
    (unsets : Bool) (w : Writing) (name : Bytes) (o : Option Peer) (s : Server)
    → AreApart s.peers
    → AreApart (remove_found unsets w name o s).0.peers
unfolding remove_found
remove_found-AreApart unsets w name none s apart = apart
remove_found-AreApart unsets w name (some p) s apart =
    rw (after_remove-peers (wg (remove_peer_key p.public_key unsets) s) (remove w name s.peers))
      (remove-AreApart w name s.peers apart)

-- Removing a client keeps the names and the addresses of the clients distinct, whether the name is
-- known and whether the peers file can be written or not.
pub remove_peer-AreApart :
    (unsets : Bool) (w : Writing) (name : Bytes) (s : Server)
    → AreApart s.peers
    → AreApart (remove_peer unsets w name s).0.peers
unfolding remove_peer
remove_peer-AreApart unsets w name s apart = elim (Bool-cases (not s.running)) [
  | inl off ↦ rw off apart
  | inr on ↦ rw on (remove_found-AreApart unsets w name (get s.peers name) s apart)
]
