-- ===== src/WgServer/Gateway/Steps.antt =====
-- Predicates that the statements of `Start` keep (internal/wgserver/server.go).
use wg_proxy.Common.{
  ℕ, ◌≡◌, refl, inl, inr, Bool, true, false, none, some, List, [], ◌∷◌, Bool-cases, arith,
}
use wg_proxy.Common.Bytes.{Bytes, codes}
use wg_proxy.Common.Errors.{Result, ok, err}
use wg_proxy.Common.Strings.{contains_text}
use wg_proxy.WgServer.Peers.{Peer}
use wg_proxy.WgServer.Addresses.{Subnet}
use wg_proxy.WgServer.Server.{
  Server, WgCall, wg, set_peer, remove_peer_key, link_del, link_up, add_rule, delete_rule,
}
use wg_proxy.WgServer.Gateway.{
  Boot, Step, Failure, and_then, labelled, report, assign_address, set_address, configure, with_key,
  setup_interface, add_peers, open_temp, removing,
}

-- A call that leaves the rules of the firewall alone.
abbrev pub is_quiet : WgCall → Bool
is_quiet (add_rule r done) = false
is_quiet (delete_rule r done) = false
is_quiet _ = true

-- A call that leaves the clients of the interface alone as well, or removes the interface.
abbrev pub is_setup : WgCall → Bool
is_setup (set_peer key address done) = false
is_setup (remove_peer_key key done) = false
is_setup c = is_quiet c

pub is_setup-is_quiet : (c : WgCall) → is_setup c ≡ true → is_quiet c ≡ true
is_setup-is_quiet c h = ground arith

module _ (P : Server → Type 0) where
  -- A predicate that the first statement establishes and the rest keeps.
  pub and_then-keeps :
      (r : Step) (f : Server → Step) → P r.0 → ((t : Server) → P t → P (f t).0) → P (and_then r f).0
  unfolding and_then
  and_then-keeps (t, none) f h k = k t h
  and_then-keeps (t, some e) f h k = h

  pub report-keeps : (what : Bytes) (x : Failure) (t : Server) → P t → P (report what x t).0
  unfolding report
  report-keeps what none t h = h
  report-keeps what (some (out, e)) t h = h

  pub labelled-keeps : (what : Bytes) (r : Step) → P r.0 → P (labelled what r).0
  unfolding labelled
  labelled-keeps what (t, none) h = h
  labelled-keeps what (t, some e) h = h

module _ (P : Server → Type 0)
    (keeps : (c : WgCall) (t : Server) → is_setup c ≡ true → P t → P (wg c t)) where
  assign_address-keeps :
      (address : Bytes) (x : Failure) (t : Server) → P t → P (assign_address address x t).0
  unfolding assign_address
  assign_address-keeps address none t h = keeps _ t refl h
  assign_address-keeps address (some (out, e)) t h =
      elim (Bool-cases (contains_text out (codes "RTNETLINK answers: File exists"))) [
        | inl there ↦ rw there (keeps _ t refl h)
        | inr other ↦ rw other (report-keeps P _ (some (out, e)) _ (keeps _ t refl h))
      ]

  module _ (ip_text : List ℕ → Bytes) where
    set_address-keeps :
        (b : Boot) (x : Result (Subnet × ℕ)) (t : Server) → P t → P (set_address ip_text b x t).0
    unfolding set_address
    set_address-keeps b (err e) t h = h
    set_address-keeps b (ok (net, ones)) t h =
        and_then-keeps P _ _ (assign_address-keeps _ b.addressed t h)
          λ u k. report-keeps P _ b.brought_up _ (keeps link_up u refl k)

    configure-keeps :
        (b : Boot) (path : Bytes) (t : Server) → P t → P (configure ip_text b path t).0
    unfolding configure
    configure-keeps b path t h =
        and_then-keeps P _ _ (report-keeps P _ b.listening _ (keeps _ t refl h))
          λ u k. set_address-keeps b b.subnet u k

    with_key-keeps :
        (b : Boot) (x : Result Bytes) (t : Server) → P t → P (with_key ip_text b (open_temp x t)).0
    unfolding with_key open_temp removing
    with_key-keeps b (err e) t h = h
    with_key-keeps b (ok path) t h = keeps _ _ refl (configure-keeps b path _ (keeps _ t refl h))

    -- The interface is removed first.
    pub setup_interface-removed :
        (b : Boot) (t : Server) → P (wg link_del t) → P (setup_interface ip_text b t).0
    unfolding setup_interface
    setup_interface-removed b t h =
        and_then-keeps P _ _ (report-keeps P _ b.added _ (keeps _ _ refl h))
          λ u k. with_key-keeps b b.temp_key u k

    pub setup_interface-keeps : (b : Boot) (t : Server) → P t → P (setup_interface ip_text b t).0
    setup_interface-keeps b t h = setup_interface-removed b t (keeps link_del t refl h)

module _ (P : Server → Type 0)
    (keeps : (c : WgCall) (t : Server) → is_quiet c ≡ true → P t → P (wg c t)) where
  pub add_peers-keeps :
      (f : Bytes → Bool) (ps : List Peer) (t : Server) → P t → P (add_peers f ps t)
  unfolding add_peers
  add_peers-keeps f [] t h = h
  add_peers-keeps f (p ∷ ps) t h = add_peers-keeps f ps _ (keeps _ t refl h)
