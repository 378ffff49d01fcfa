-- ===== src/WgServer/Server/Saving.antt =====
-- An `AddPeer` whose peers file cannot be written (internal/wgserver/server.go).
use wg_proxy.Common.{
  ℕ, ◌≡◌, ◌≢◌, inl, inr, refl, true, none, List, [], ◌∷◌, ◌++◌, arith, Option-cases,
}
use wg_proxy.Common.Bytes.{Bytes, codes, bytes_eq_iff}
use wg_proxy.Common.Errors.{GoError, quoting, wrapping, ok, err}
use wg_proxy.WgServer.Peers.{Peer, PeersFile, broken, add, save, find}
use wg_proxy.WgServer.Addresses.{allocate_ip}
use wg_proxy.WgServer.Server.{
  Server, Answers, add_peer, with_keys, with_address, install, new_peer, set_peer, remove_peer_key,
  if_new,
}

find-concat :
    (name : Bytes) (ps : List Peer) (p : Peer) → p.name ≡ name → find name (ps ++ (p ∷ [])) ≢ none
unfolding find
find-concat name [] p e = ground (arith, bytes_eq_iff p.name name)
find-concat name (q ∷ ps) p e = ground (arith, find-concat name ps p e)

-- An `AddPeer` that gets as far as the interface.
add_peer-install :
    (ip_text : List ℕ → Bytes) (a : Answers) (name : Bytes) (s : Server) (keys : Bytes × Bytes)
    (ip : Bytes)
    → s.running ≡ true
    → find name s.peers.peers ≡ none
    → a.keys ≡ ok keys
    → allocate_ip ip_text s.settings.server_subnet a.subnet s.peers.peers ≡ ok ip
    → a.wg_set ≡ none
    → add_peer ip_text a name s ≡ install a name (new_peer name keys ip) none s
unfolding add_peer if_new with_keys with_address
add_peer-install ip_text a name s keys ip on new keyed got set =
    rw (on, new, keyed, with_keys, got, with_address, set)

install-running :
    (a : Answers) (name : Bytes) (keys : Bytes × Bytes) (ip : Bytes) (s : Server) (e : GoError)
    (f : PeersFile)
    → a.writing ≡ broken e f
    → s.running ≡ true
    → (install a name (new_peer name keys ip) none s).0.running ≡ true
unfolding install add save
install-running a name (k, l) ip s e f broke on = rw broke on

-- A client whose saving fails is taken from the interface again, but the store keeps it.
install-unsaved :
    (a : Answers) (name : Bytes) (keys : Bytes × Bytes) (ip : Bytes) (s : Server) (e : GoError)
    (f : PeersFile)
    → a.writing ≡ broken e f
    → find name s.peers.peers ≡ none
    → let r = install a name (new_peer name keys ip) none s in
      (r.1 ≡ err (wrapping (codes "saving peer") e))
      × (r.0.calls
          ≡ (s.calls ++ (set_peer keys.1 (ip ++ codes "/32") true ∷ []))
            ++ (remove_peer_key keys.1 a.unsets ∷ []))
      × (find name r.0.peers.peers ≢ none)
unfolding install add save
install-unsaved a name (k, l) ip s e f broke new =
    rw broke (refl, refl, find-concat name s.peers.peers _ refl)

find-some→exists :
    (ip_text : List ℕ → Bytes) (b : Answers) (name : Bytes) (s : Server)
    → s.running ≡ true
    → find name s.peers.peers ≢ none
    → (add_peer ip_text b name s).1 ≡ err (quoting (codes "peer ") name (codes " already exists"))
unfolding add_peer if_new
find-some→exists ip_text b name s on known = elim (Option-cases (find name s.peers.peers)) [
  | inl e ↦ absurd (known e)
  | inr (p, e) ↦ rw (on, e)
]

-- On a running server, let a new name get its keys, its address and its place on the interface, and
-- let the write of the peers file fail. Then the caller gets an error, but the name counts as
-- taken: the next attempt to add it is refused, whatever the world answers.
pub add_peer-unsaved :
    (ip_text : List ℕ → Bytes) (a : Answers) (name : Bytes) (s : Server) (keys : Bytes × Bytes)
    (ip : Bytes) (e : GoError) (f : PeersFile) (b : Answers)
    → s.running ≡ true
    → find name s.peers.peers ≡ none
    → a.keys ≡ ok keys
    → allocate_ip ip_text s.settings.server_subnet a.subnet s.peers.peers ≡ ok ip
    → a.wg_set ≡ none
    → a.writing ≡ broken e f
    → ((add_peer ip_text a name s).1 ≡ err (wrapping (codes "saving peer") e))
      × ((add_peer ip_text b name (add_peer ip_text a name s).0).1
          ≡ err (quoting (codes "peer ") name (codes " already exists")))
add_peer-unsaved ip_text a name s keys ip e f b on new keyed got set broke =
    let (failed, _, kept) = install-unsaved a name keys ip s e f broke new in
    let same : add_peer ip_text a name s ≡ install a name (new_peer name keys ip) none s =
      add_peer-install ip_text a name s keys ip on new keyed got set in
    rw same (
      failed,
      find-some→exists ip_text b name _ (install-running a name keys ip s e f broke on) kept,
    )
