-- ===== src/WgServer/Server/Unfailing.antt =====
-- `AddPeer` and `RemovePeer` where the interface and the peers file take the change
-- (internal/wgserver/server.go, internal/wgserver/peers.go).
use wg_proxy.Common.{
  ℕ, ◌≡◌, ◌⊎◌, refl, inl, inr, true, not, Option, none, some, List, [], ◌∷◌, ◌++◌, Bool-cases,
}
use wg_proxy.Common.Bytes.{Bytes, bytes_eq}
use wg_proxy.Common.Errors.{Result, ok, err}
use wg_proxy.WgServer.Peers.{Peer, written, find, get, without, add, save, remove}
use wg_proxy.WgServer.Server.{
  Server, Answers, Added, ClientConfig, remove_peer_key, add_peer, if_new, with_keys, with_address,
  install, remove_peer, remove_found,
}

-- The call has changed nothing, or it has returned a configuration.
abbrev pub IsWhole : Server → Added → Type 0
IsWhole s r = (r.0 ≡ s) ⊎ ((c : ClientConfig) × (r ≡ (r.0, ok c)))

module _ (ip_text : List ℕ → Bytes) (a : Answers) (name : Bytes) (s : Server)
    (coded : Bytes → Bytes) (set : a.wg_set ≡ none) (wrote : a.writing ≡ written coded) where
  with_address-IsWhole :
      (keys : Bytes × Bytes) (r : Result Bytes) → IsWhole s (with_address a name keys r s)
  unfolding with_address install add save
  with_address-IsWhole keys (err e) = inl refl
  with_address-IsWhole keys (ok ip) = rw (set, install, wrote) (inr (_, refl))

  with_keys-IsWhole : (r : Result (Bytes × Bytes)) → IsWhole s (with_keys ip_text a name r s)
  unfolding with_keys
  with_keys-IsWhole (err e) = inl refl
  with_keys-IsWhole (ok keys) = with_address-IsWhole keys _

  if_new-IsWhole : (o : Option Peer) → IsWhole s (if_new ip_text a name o s)
  unfolding if_new
  if_new-IsWhole (some p) = inl refl
  if_new-IsWhole none = with_keys-IsWhole a.keys

  pub add_peer-IsWhole : IsWhole s (add_peer ip_text a name s)
  unfolding add_peer
  add_peer-IsWhole = elim (Bool-cases (not s.running)) [
    | inl off ↦ rw off (inl refl)
    | inr on ↦ rw on (if_new-IsWhole (get s.peers name))
  ]

-- A name that is found is taken out.
find-without :
    (name : Bytes) (ps : List Peer) (p : Peer)
    → find name ps ≡ some p
    → (rest : List Peer) × (without name ps ≡ some rest)
unfolding find without
find-without name [] p e = cc
find-without name (q ∷ ps) p e = elim (Bool-cases (bytes_eq q.name name)) [
  | inl hit ↦ (ps, rw hit refl)
  | inr miss ↦
      let (rest, er) = find-without name ps p (rw miss at e) in (q ∷ rest, rw (miss, er) refl)
]

-- The peer `p` was removed from the server `s`, which became `s'`.
pub record IsRemoved (name : Bytes) (s s' : Server) (p : Peer) : Type 0 where
  pub found : find name s.peers.peers ≡ some p
  pub left : without name s.peers.peers ≡ some s'.peers.peers
  pub called : s'.calls ≡ s.calls ++ (remove_peer_key p.public_key true ∷ [])

remove_found-cases :
    (coded : Bytes → Bytes) (name : Bytes) (s : Server) (o : Option Peer)
    → find name s.peers.peers ≡ o
    → ((remove_found true (written coded) name o s).0 ≡ s)
      ⊎ ((p : Peer) × IsRemoved name s (remove_found true (written coded) name o s).0 p)
unfolding remove_found remove save
remove_found-cases coded name s none e = inl refl
remove_found-cases coded name s (some p) e =
    let (rest, er) = find-without name s.peers.peers p e in
    inr (p, rw (er, remove_found, remove) record { found = e; left = er; called = refl })

pub remove_peer-cases :
    (coded : Bytes → Bytes) (name : Bytes) (s : Server)
    → ((remove_peer true (written coded) name s).0 ≡ s)
      ⊎ ((p : Peer) × IsRemoved name s (remove_peer true (written coded) name s).0 p)
unfolding remove_peer
remove_peer-cases coded name s = elim (Bool-cases (not s.running)) [
  | inl off ↦ rw off (inl refl)
  | inr on ↦ rw on (remove_found-cases coded name s (get s.peers name) refl)
]
