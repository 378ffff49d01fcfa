-- ===== src/WgServer/Members/Booting.antt =====
-- The interface of a server that was started (internal/wgserver/server.go).
use mathlib.Core.Path.{subst}
use wg_proxy.Common.{
  ℕ, Bool, ◌||◌, All, ◌≡◌, refl, sym, ap, ◌∙◌, true, false, Option, none, some, List, [], ◌∷◌,
  arith,
}
use wg_proxy.Common.Bytes.{Bytes}
use wg_proxy.Common.Errors.{GoError}
use wg_proxy.WgServer.Peers.{Peer, PeerStore}
use wg_proxy.WgServer.Server.{Server, WgCall, wg, enable_forwarding, add_rule, set_peer, link_del}
use wg_proxy.WgServer.Server.Clients.{IsDistinct}
use wg_proxy.WgServer.Gateway.{
  masquerade, accept_in, accept_out, Boot, add_peers, setup_nat, load_peers, bring_up, to_interface,
  start,
}
use wg_proxy.WgServer.Gateway.Steps.{is_setup, setup_interface-removed}
use wg_proxy.WgServer.Gateway.Success.{
  and_then-none, labelled-none, or_teardown-none, setup_nat-none, started-none, start-started,
}
use wg_proxy.WgServer.Members.{Members, member_effect, members-append, by_key, setup-none}
use wg_proxy.WgServer.Members.Store.{on_interface, InSync, key}

add_peers-members :
    (f : Bytes → Bool) (ps : List Peer) (s : Server) (j : Bytes)
    → All (λ p. f (key p) ≡ true) ps
    → on_interface (add_peers f ps s) j ≡ by_key ps j || on_interface s j
unfolding add_peers by_key member_effect
add_peers-members f [] s j d = refl
add_peers-members f (p ∷ ps) s j (h, d) =
    rw (add_peers, h)
      (add_peers-members f ps (wg (set_peer p.public_key p.allowed_ip true) s) j d
        ∙ (ap (λ (m : Members). by_key ps j || m j)
              (members-append s.calls (set_peer p.public_key p.allowed_ip true) λ k. false)
            ∙ ground arith))

add_peers-peers :
    (f : Bytes → Bool) (ps : List Peer) (s : Server) → (add_peers f ps s).peers ≡ s.peers
unfolding add_peers
add_peers-peers f [] s = refl
add_peers-peers f (p ∷ ps) s = add_peers-peers f ps (wg (set_peer p.public_key p.allowed_ip _) s)

-- An interface without clients.
abbrev IsBare : Server → Type 0
IsBare s = (j : Bytes) → on_interface s j ≡ false

IsBare-wg : (c : WgCall) (s : Server) → is_setup c ≡ true → IsBare s → IsBare (wg c s)
IsBare-wg c s q h j =
    ap (λ (m : Members). m j) (members-append s.calls c λ k. false)
    ∙ setup-none c (on_interface s) j q (h j)

IsBare-removed : (s : Server) → IsBare (wg link_del s)
unfolding member_effect
IsBare-removed s j = ap (λ (m : Members). m j) (members-append s.calls link_del λ k. false)

-- A call that leaves the clients of the interface alone.
on_interface-wg :
    (c : WgCall) (s : Server) (j : Bytes)
    → member_effect c (on_interface s) j ≡ on_interface s j
    → on_interface (wg c s) j ≡ on_interface s j
on_interface-wg c s j e = ap (λ (m : Members). m j) (members-append s.calls c λ k. false) ∙ e

-- The firewall is set up without a change to the clients.
setup_nat-members :
    (b : Boot) (s t : Server)
    → setup_nat b s ≡ (t, none)
    → ((j : Bytes) → on_interface t j ≡ on_interface s j) × (t.peers ≡ s.peers)
unfolding member_effect
setup_nat-members b s t e =
    let forwarded = wg enable_forwarding s in
    let hidden = wg (add_rule (masquerade s.settings.server_subnet b.interface) true) forwarded in
    let inward = wg (add_rule accept_in true) hidden in
    rw (setup_nat-none b s t e) (
      λ j.
          on_interface-wg (add_rule accept_out true) inward j refl
          ∙ (on_interface-wg (add_rule accept_in true) hidden j refl
              ∙ (on_interface-wg _ forwarded j refl ∙ on_interface-wg enable_forwarding s j refl)),
      refl,
    )

or_false : (x : Bool) → x || false ≡ x
or_false true = refl
or_false false = refl

-- The peers of a store on a bare interface.
add_peers-InSync :
    (f : Bytes → Bool) (w t : Server)
    → IsBare w
    → All (λ p. f (key p) ≡ true) w.peers.peers
    → IsDistinct key w.peers.peers
    → ((j : Bytes) → on_interface t j ≡ on_interface (add_peers f w.peers.peers w) j)
    → t.peers ≡ w.peers
    → InSync t
add_peers-InSync f w t bare all d ruled same_peers = record {
  same = λ j.
      ruled j
      ∙ (add_peers-members f w.peers.peers w j all
          ∙ (ap (λ x. by_key w.peers.peers j || x) (bare j)
              ∙ (or_false (by_key w.peers.peers j)
                  ∙ ap (λ (x : PeerStore). by_key x.peers j) (sym same_peers))));
  distinct = rw same_peers d;
}

bring_up-InSync :
    (ip_text : List ℕ → Bytes) (b : Boot) (s t : Server)
    → bring_up ip_text b s ≡ (t, none)
    → All (λ p. b.installs (key p) ≡ true) t.peers.peers
    → IsDistinct key t.peers.peers
    → InSync t
unfolding bring_up to_interface
bring_up-InSync ip_text b s t h all d =
    let (w, reached, h3) = and_then-none _ _ t h in
    let (u, e1, h1) = and_then-none _ _ w reached in
    let (v, e2, e3) = and_then-none _ _ w h1 in
    let bare : IsBare w =
      subst (λ (r : Server × Option GoError). IsBare r.0) (labelled-none _ _ w e3)
        (setup_interface-removed IsBare IsBare-wg ip_text b (load_peers v)
          (IsBare-removed (load_peers v))) in
    let (ruled, same_peers) =
      setup_nat-members b (add_peers b.installs w.peers.peers w) t (or_teardown-none _ t h3) in
    let kept : t.peers ≡ w.peers = same_peers ∙ add_peers-peers b.installs w.peers.peers w in
    add_peers-InSync b.installs w t bare
      (subst (λ (x : PeerStore). All (λ p. b.installs (key p) ≡ true) x.peers) kept all)
      (subst (λ (x : PeerStore). IsDistinct key x.peers) kept d) ruled kept

pub start-InSync :
    (ip_text : List ℕ → Bytes) (b : Boot) (s t : Server)
    → s.running ≡ false
    → start ip_text b s ≡ some (t, none)
    → All (λ p. b.installs (key p) ≡ true) t.peers.peers
    → IsDistinct key t.peers.peers
    → InSync t
unfolding start
start-InSync ip_text b s t down h all d =
    let (u, e, same) = started-none (bring_up ip_text b s) t (start-started ip_text b s _ down h) in
    let sync =
      bring_up-InSync ip_text b s u e
        (subst (λ (x : Server). All (λ p. b.installs (key p) ≡ true) x.peers.peers) (sym same) all)
        (subst (λ (x : Server). IsDistinct key x.peers.peers) (sym same) d) in
    subst InSync same (record { same = sync.same; distinct = sync.distinct })
