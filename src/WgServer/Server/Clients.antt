-- ===== src/WgServer/Server/Clients.antt =====
-- The clients stay apart (internal/wgserver/server.go, internal/wgserver/peers.go): no two share a
-- name or an address.
use wg_proxy.Common.{
  ℕ, ◌≡◌, ◌≢◌, ◌⊎◌, inl, inr, refl, sym, ap, ◌∙◌, not, Option, none, some, List, [], ◌∷◌, ◌++◌, map,
  arith, Bool-cases, All, All-append,
}
use wg_proxy.Common.Bytes.{Bytes, codes, bytes_eq_iff}
use wg_proxy.Common.Errors.{ok-inj, ok-ne-err, GoError, Result, ok, err}
use wg_proxy.WgServer.Peers.{Peer, PeerStore, Writing, written, broken, add, find}
use wg_proxy.WgServer.Addresses.{Subnet, set_last, before_slash, allocate_ip}
use wg_proxy.WgServer.Addresses.Allocation.{IsNone, allocate_ip-first}
use wg_proxy.WgServer.Server.{
  Server, Answers, add_peer, with_keys, with_address, install, after_save, new_peer, if_new,
}

abbrev pub address : Peer → Bytes
address p = before_slash p.allowed_ip

-- No two peers agree in a field.
abbrev pub IsDistinct : (Peer → Bytes) → List Peer → Type 0
IsDistinct key [] = Unit {0}
IsDistinct key (p ∷ ps) = All (λ q. key p ≢ key q) ps × IsDistinct key ps

pub IsDistinct-concat :
    (key : Peer → Bytes) (ps : List Peer) (p : Peer)
    → IsDistinct key ps
    → All (λ q. key p ≢ key q) ps
    → IsDistinct key (ps ++ (p ∷ []))
IsDistinct-concat key [] p d h = (tt, tt)
IsDistinct-concat key (q ∷ ps) p (a, d) (h, hs) = (
  All-append (λ r. key q ≢ key r) ps (p ∷ []) a ((λ e. h (sym e)), tt),
  IsDistinct-concat key ps p d hs,
)

-- The store has clients of distinct names and distinct addresses.
pub record AreApart (s : PeerStore) : Type 0 where
  pub names : IsDistinct (λ p. p.name) s.peers
  pub addresses : IsDistinct address s.peers

-- A name that is not found is nobody's.
find-none :
    (name : Bytes) (ps : List Peer) → find name ps ≡ none → All (λ (q : Peer). name ≢ q.name) ps
unfolding find
find-none name [] e = tt
find-none name (p ∷ ps) e =
    (ground (arith, bytes_eq_iff p.name name), find-none name ps (ground arith))

abbrev pub NoSlash : Bytes → Type 0
NoSlash = All (λ c. c ≢ b'/')

before_slash-append : (s t : Bytes) → NoSlash s → before_slash (s ++ (b'/' ∷ t)) ≡ s
unfolding before_slash
before_slash-append [] t h = refl
before_slash-append (c ∷ s) t (h, hs) = ground (arith, before_slash-append s t hs)

IsNone-addresses :
    (s : Bytes) (ps : List Peer)
    → IsNone s (map (λ p. address p) ps)
    → All (λ (q : Peer). s ≢ address q) ps
IsNone-addresses s [] h = tt
IsNone-addresses s (p ∷ ps) (h, hs) = (h, IsNone-addresses s ps hs)

-- The result of `Add`: the new peer is at the end of the store, whether it was saved or not.
add-peers :
    (w : Writing) (now : ℕ) (p : Peer) (s : PeerStore)
    → (add w now p s).0.peers ≡ s.peers ++ (record p { created_at = now } ∷ [])
unfolding add
add-peers (written coded) now p s = refl
add-peers (broken e f) now p s = refl

after_save-peers :
    (a : Answers) (name : Bytes) (p : Peer) (s : Server) (r : PeerStore × Option GoError)
    → (after_save a name p s r).0.peers ≡ r.0
after_save-peers a name p s (store, none) = refl
after_save-peers a name p s (store, some e) = refl

-- What an `AddPeer` makes of the store: nothing, or one more peer at its end.
abbrev Grows : PeerStore → PeerStore → Bytes → Bytes → Type 0
Grows s t name ip =
    (p : Peer) × (t.peers ≡ s.peers ++ (p ∷ []))
    × (p.name ≡ name)
    × (p.allowed_ip ≡ ip ++ codes "/32")

install-cases :
    (a : Answers) (name : Bytes) (keys : Bytes × Bytes) (ip : Bytes) (o : Option GoError)
    (s : Server)
    → ((install a name (new_peer name keys ip) o s).0.peers ≡ s.peers)
      ⊎ Grows s.peers (install a name (new_peer name keys ip) o s).0.peers name ip
unfolding install
install-cases a name keys ip (some e) s = inl refl
install-cases a name (k, l) ip none s =
    let p = new_peer name (k, l) ip in
    inr (
      record p { created_at = a.now },
      ap (λ (t : PeerStore). t.peers) (after_save-peers a name p _ (add a.writing a.now p s.peers))
          ∙ add-peers a.writing a.now p s.peers,
      refl,
      refl,
    )

module _ (ip_text : List ℕ → Bytes) (a : Answers) (name : Bytes) (s : Server) where
  abbrev allocated : Result Bytes
  allocated = allocate_ip ip_text s.settings.server_subnet a.subnet s.peers.peers

  -- Nothing is stored, or a peer of the free name with the address that was allocated to it.
  abbrev Stored : PeerStore → Type 0
  Stored t =
      (t ≡ s.peers)
      ⊎ ((ip : Bytes) × (find name s.peers.peers ≡ none)
          × (allocated ≡ ok ip)
          × Grows s.peers t name ip)

  with_address-cases :
      (keys : Bytes × Bytes) (r : Result Bytes)
      → find name s.peers.peers ≡ none
      → allocated ≡ r
      → Stored (with_address a name keys r s).0.peers
  unfolding with_address
  with_address-cases keys (err e) new same = inl refl
  with_address-cases keys (ok ip) new same = elim (install-cases a name keys ip a.wg_set s) [
    | inl e ↦ inl e
    | inr g ↦ inr (ip, new, same, g)
  ]

  with_keys-cases :
      (keys : Result (Bytes × Bytes))
      → find name s.peers.peers ≡ none
      → Stored (with_keys ip_text a name keys s).0.peers
  unfolding with_keys
  with_keys-cases (err e) new = inl refl
  with_keys-cases (ok keys) new = with_address-cases keys allocated new refl

  if_new-cases :
      (o : Option Peer) → find name s.peers.peers ≡ o → Stored (if_new ip_text a name o s).0.peers
  unfolding if_new
  if_new-cases (some p) e = inl refl
  if_new-cases none e = with_keys-cases a.keys e

  add_peer-cases : Stored (add_peer ip_text a name s).0.peers
  unfolding add_peer
  add_peer-cases = elim (Bool-cases (not s.running)) [
    | inl off ↦ rw off (inl refl)
    | inr on ↦ rw on (if_new-cases (find name s.peers.peers) refl)
  ]

-- An allocated address has no slash and is no client's.
allocated-new :
    (ip_text : List ℕ → Bytes) (configured : Bytes) (subnet : Result Subnet) (peers : List Peer)
    (ip : Bytes)
    → ((a : List ℕ) → NoSlash (ip_text a))
    → allocate_ip ip_text configured subnet peers ≡ ok ip
    → NoSlash ip × All (λ (q : Peer). ip ≢ address q) peers
unfolding allocate_ip
allocated-new ip_text configured (err e) peers ip plain h = cc
allocated-new ip_text configured (ok net) peers ip plain h =
    elim (allocate_ip-first ip_text configured net peers) [
      | inr (full, _) ↦ absurd (ok-ne-err (sym h ∙ full))
      | inl (t, found, (i, _, _, same, available, _)) ↦
          let e : t ≡ ip = ok-inj (sym found ∙ h) in
          (
            rw (← e, same) (plain (set_last net.ip i)),
            IsNone-addresses ip peers (rw (← e, same) (available.1.1)),
          )
    ]

-- Where `net.IP.String` writes no slash, adding a client keeps the names and the addresses of the
-- clients distinct, whichever of its steps fails.
pub add_peer-AreApart :
    (ip_text : List ℕ → Bytes) (a : Answers) (name : Bytes) (s : Server)
    → ((b : List ℕ) → NoSlash (ip_text b))
    → AreApart s.peers
    → AreApart (add_peer ip_text a name s).0.peers
add_peer-AreApart ip_text a name s plain apart = elim (add_peer-cases ip_text a name s) [
  | inl e ↦ rw e apart
  | inr (ip, new, got, (p, grown, named, at)) ↦
      let (no_slash, unused) =
        allocated-new ip_text s.settings.server_subnet a.subnet s.peers.peers ip plain got in
      let here : address p ≡ ip =
        ap before_slash at ∙ before_slash-append ip (codes "32") no_slash in
      record {
        names = rw grown (
            IsDistinct-concat (λ (q : Peer). q.name) s.peers.peers p apart.names
              (rw named (find-none name s.peers.peers new)));
        addresses =
            rw grown (IsDistinct-concat address s.peers.peers p apart.addresses (rw here unused));
      }
]
