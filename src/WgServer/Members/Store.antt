-- ===== src/WgServer/Members/Store.antt =====
-- What the store says of a key, and how it changes (internal/wgserver/peers.go).
use wg_proxy.Common.{
  ◌≡◌, ◌≢◌, refl, inl, inr, true, false, some, List, [], ◌∷◌, ◌++◌, if◌then◌else◌, arith, All,
  Bool-cases, Option-cases, none-ne-some, some-inj,
}
use wg_proxy.Common.Bytes.{Bytes, bytes_eq, bytes_eq_iff}
use wg_proxy.WgServer.Peers.{Peer, find, without}
use wg_proxy.WgServer.Server.{Server}
use wg_proxy.WgServer.Server.Clients.{IsDistinct}
use wg_proxy.WgServer.Members.{Members, members, by_key}

abbrev pub key : Peer → Bytes
key p = p.public_key

pub by_key-append :
    (ps : List Peer) (p : Peer) (j : Bytes)
    → by_key ps p.public_key ≡ false
    → by_key (ps ++ (p ∷ [])) j ≡ (if bytes_eq j p.public_key then true else by_key ps j)
unfolding by_key
by_key-append [] p j h = refl
by_key-append (q ∷ ps) p j h = ground (
  arith,
  by_key-append ps p j,
  bytes_eq_iff j p.public_key,
  bytes_eq_iff j q.public_key,
  bytes_eq_iff p.public_key q.public_key,
)

-- A key that is nobody's.
pub by_key-none : (ps : List Peer) (k : Bytes) → All (λ q. k ≢ key q) ps → by_key ps k ≡ false
unfolding by_key
by_key-none [] k h = refl
by_key-none (q ∷ ps) k (h, hs) = ground (arith, bytes_eq_iff k q.public_key, by_key-none ps k hs)

pub none-by_key : (ps : List Peer) (k : Bytes) → by_key ps k ≡ false → All (λ q. k ≢ key q) ps
unfolding by_key
none-by_key [] k h = tt
none-by_key (q ∷ ps) k h =
    (ground (arith, bytes_eq_iff k q.public_key), none-by_key ps k (ground arith))

All-find :
    (P : Peer → Type 0) (name : Bytes) (ps : List Peer) (p : Peer)
    → find name ps ≡ some p
    → All P ps
    → P p
unfolding find
All-find P name [] p e h = cc
All-find P name (q ∷ ps) p e (h, hs) = elim (Bool-cases (bytes_eq q.name name)) [
  | inl hit ↦ rw (← some-inj (rw (hit, find) at e)) h
  | inr miss ↦ All-find P name ps p (rw (miss, find) at e) hs
]

-- The first client of a name is taken out.
pub by_key-without :
    (name : Bytes) (ps rest : List Peer) (p : Peer) (j : Bytes)
    → IsDistinct key ps
    → find name ps ≡ some p
    → without name ps ≡ some rest
    → by_key rest j ≡ (if bytes_eq j p.public_key then false else by_key ps j)
unfolding by_key find without
by_key-without name [] rest p j d f e = cc
by_key-without name (q ∷ ps) rest p j (h, d) f e = elim (Bool-cases (bytes_eq q.name name)) [
  | inl hit ↦
      rw (← some-inj (rw (hit, find) at f), ← some-inj (rw (hit, without) at e))
        (ground (arith, bytes_eq_iff j q.public_key, by_key-none ps q.public_key h))
  | inr miss ↦ elim (Option-cases (without name ps)) [
    | inl gone ↦ absurd (none-ne-some (rw (miss, without, gone) at e))
    | inr (kept, ek) ↦
        let later = rw (miss, find) at f in
        let ih = by_key-without name ps kept p j d later ek in
        let apart : key q ≢ key p = All-find (λ r. key q ≢ key r) name ps p later h in
        rw (← some-inj (rw (miss, without, ek) at e))
          (ground (arith, ih, bytes_eq_iff j q.public_key, bytes_eq_iff j p.public_key))
  ]
]

-- The clients that the interface has, which has none before the first call.
abbrev pub on_interface : Server → Members
on_interface s = members s.calls λ j. false

-- The interface has the clients of the store, and each has a key of its own.
pub record InSync (s : Server) : Type 0 where
  pub same : (j : Bytes) → on_interface s j ≡ by_key s.peers.peers j
  pub distinct : IsDistinct key s.peers.peers
