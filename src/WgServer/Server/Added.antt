-- ===== src/WgServer/Server/Added.antt =====
-- A client that was added to the VPN server (internal/wgserver/server.go,
-- internal/wgserver/peers.go).
use wg_proxy.Common.{
  ℕ, ◌≡◌, refl, sym, ap, ◌∙◌, Bool, true, false, not, Option, none, some, if◌then◌else◌, List, [],
  ◌∷◌, ◌++◌,
}
use wg_proxy.Common.Bytes.{Bytes}
use wg_proxy.Common.Errors.{GoError, Result, ok, err, ok-inj, ok-ne-err}
use wg_proxy.WgServer.Peers.{encode_peers, Peer, holds, Writing, written, broken, add, save, get}
use wg_proxy.WgServer.Server.{
  Server, Answers, Added, ClientConfig, set_peer, client_config, add_peer, with_keys, with_address,
  install, new_peer, if_new, not_running,
}
use wg_proxy.WgServer.Server.Access.{list_peers, get_peer}

-- The peer `p` was added to the server `s`, which became `s'`, and its configuration is `c`.
pub record IsAdded (a : Answers) (name : Bytes) (s s' : Server) (c : ClientConfig) (p : Peer)
    : Type 0 where
  pub was_new : get_peer s name ≡ none
  pub named : p.name ≡ name
  pub listed : list_peers s' ≡ list_peers s ++ (p ∷ [])
  pub saved :
      (coded : Bytes → Bytes)
      → a.writing ≡ written coded
      → s'.peers.file ≡ holds (encode_peers coded (list_peers s'))
  pub called : s'.calls ≡ s.calls ++ (set_peer p.public_key p.allowed_ip true ∷ [])
  pub keyed : a.keys ≡ ok (p.private_key, p.public_key)
  pub config : c ≡ client_config s a.public_ip name p.private_key p.allowed_ip
  pub settings : s'.settings ≡ s.settings
  pub key : s'.public_key ≡ s.public_key
  pub running : s'.running ≡ true

-- How the strings of a file are written.
abbrev coding : Writing → Bytes → Bytes
coding (written coded) s = coded s
coding (broken e file) s = s

module _ (a : Answers) (name : Bytes) (s s' : Server) (c : ClientConfig) where
  install-IsAdded :
      (p : Peer) (o : Option GoError) (w : Writing)
      → a.writing ≡ w
      → p.name ≡ name
      → a.keys ≡ ok (p.private_key, p.public_key)
      → s.running ≡ true
      → get_peer s name ≡ none
      → install a name p o s ≡ (s', ok c)
      → IsAdded a name s s' c (record p { created_at = a.now })
  unfolding install add save client_config
  install-IsAdded p (some x) w ew n keyed r new e =
      absurd (ok-ne-err (sym (ap (λ (y : Added). y.1) e)))
  install-IsAdded p none (broken x f) ew n keyed r new e =
      absurd (ok-ne-err (sym (ap (λ (y : Added). y.1) (rw ew at e))))
  install-IsAdded p none (written coded) ew n keyed r new e =
      let done = rw ew at e in
      rw (← ap (λ (y : Added). y.0) done) (record {
        was_new = new;
        named = n;
        listed = refl;
        saved = λ coded2 e2.
            ap
              (λ w.
                holds (
                  encode_peers (coding w)
                    (s.peers.peers ++ (record p { created_at = a.now } ∷ []))))
              (sym ew ∙ e2);
        called = refl;
        keyed = keyed;
        config = sym (ok-inj (ap (λ (y : Added). y.1) done));
        settings = refl;
        key = refl;
        running = r;
      })

module _ (ip_text : List ℕ → Bytes) (a : Answers) (name : Bytes) (s s' : Server)
    (c : ClientConfig) where
  abbrev AddedOne : Type 0
  AddedOne = (p : Peer) × IsAdded a name s s' c p

  refused : {s1 : Server} {x : GoError} → ¬ ◌≡◌ {A = Added} (s1, err x) (s', ok c)
  refused e = ok-ne-err (sym (ap (λ (y : Added). y.1) e))

  with_address-IsAdded :
      (keys : Bytes × Bytes) (r : Result Bytes)
      → a.keys ≡ ok keys
      → s.running ≡ true
      → get_peer s name ≡ none
      → with_address a name keys r s ≡ (s', ok c)
      → AddedOne
  unfolding with_address
  with_address-IsAdded keys (err x) keyed on new e = absurd (refused e)
  with_address-IsAdded (private_key, public_key) (ok ip) keyed on new e = (
    _,
    install-IsAdded a name s s' c (new_peer name (private_key, public_key) ip) a.wg_set a.writing
        refl refl keyed on new e,
  )

  with_keys-IsAdded :
      (r : Result (Bytes × Bytes))
      → a.keys ≡ r
      → s.running ≡ true
      → get_peer s name ≡ none
      → with_keys ip_text a name r s ≡ (s', ok c)
      → AddedOne
  unfolding with_keys
  with_keys-IsAdded (err x) keyed on new e = absurd (refused e)
  with_keys-IsAdded (ok keys) keyed on new e = with_address-IsAdded keys _ keyed on new e

  if_new-IsAdded :
      (o : Option Peer)
      → s.running ≡ true
      → get_peer s name ≡ o
      → if_new ip_text a name o s ≡ (s', ok c)
      → AddedOne
  unfolding if_new
  if_new-IsAdded (some p) on known e = absurd (refused e)
  if_new-IsAdded none on new e = with_keys-IsAdded a.keys refl on new e

  running-IsAdded :
      (b : Bool)
      → s.running ≡ b
      → (if not b then (s, err not_running) else if_new ip_text a name (get s.peers name) s)
        ≡ (s', ok c)
      → AddedOne
  running-IsAdded true on e = if_new-IsAdded (get s.peers name) on refl e
  running-IsAdded false off e = absurd (refused e)

  -- A call of `AddPeer` that returns a configuration.
  pub add_peer-IsAdded : add_peer ip_text a name s ≡ (s', ok c) → AddedOne
  unfolding add_peer
  add_peer-IsAdded e = running-IsAdded s.running refl e

-- The strings of a peer are those that encoding/json writes and reads as they are.
abbrev pub IsCoded : (Bytes → Bytes) → Peer → Type 0
IsCoded coded p =
    (coded p.name ≡ p.name)
    × (coded p.public_key ≡ p.public_key)
    × (coded p.private_key ≡ p.private_key)
    × (coded p.allowed_ip ≡ p.allowed_ip)
