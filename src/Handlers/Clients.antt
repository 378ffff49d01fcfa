-- ===== src/Handlers/Clients.antt =====
-- What the requests to the VPN server and to the routing keep (internal/handlers/routes.go).
use wg_proxy.Common.{ℕ, ◌≡◌, refl, ◌&&◌, Option, none, some, List, Bool-cases, inl, inr}
use wg_proxy.Common.Bytes.{Bytes, codes, bytes_eq, is_empty}
use wg_proxy.Common.Errors.{GoError, Result, ok, err}
use wg_proxy.Health.{Checker}
use wg_proxy.WgServer.Server.{Server, Added, add_peer, remove_peer}
use wg_proxy.WgServer.Server.Clients.{AreApart, NoSlash, add_peer-AreApart}
use wg_proxy.WgServer.Server.Removal.{remove_peer-AreApart}
use wg_proxy.WgServer.Routing.{Controller, mode_direct, mode_proxied, set_mode}
use wg_proxy.WgServer.Routing.Modes.{IsConsistent, set_mode-IsConsistent}
use wg_proxy.Handlers.{Method, get, post, is_get, is_delete, Wanted, Request, Outside}
use wg_proxy.Handlers.Vpn.{
  tell_added, post_peer, wg_peers, handle_wg_peers, tell_removed, is_config, peer_action,
  handle_wg_peer_action, tell_mode, port_for, proxy_through, post_routing, by_method,
}

abbrev pub AreClientsApart : Option Server → Type 0
AreClientsApart none = Unit {0}
AreClientsApart (some s) = AreApart s.peers

module _ (quote : Bytes → Bytes) (ip_text : List ℕ → Bytes) (o : Outside) where
  tell_added-server : (r : Added) → (tell_added quote ip_text o r).0 ≡ r.0
  unfolding tell_added
  tell_added-server (s, err e) = refl
  tell_added-server (s, ok c) = refl

  module _ (plain : (b : List ℕ) → NoSlash (ip_text b)) where
    post_peer-AreApart :
        (n : Result Bytes) (s : Server)
        → AreApart s.peers
        → AreApart (post_peer quote ip_text o n s).0.peers
    unfolding post_peer
    post_peer-AreApart (err e) s apart = apart
    post_peer-AreApart (ok name) s apart = elim (Bool-cases (is_empty name)) [
      | inl e ↦ rw e apart
      | inr e ↦
          rw (e, tell_added-server (add_peer ip_text o.answers name s))
            (add_peer-AreApart ip_text o.answers name s plain apart)
    ]

    wg_peers-AreApart :
        (m : Method) (n : Result Bytes) (s : Server)
        → AreApart s.peers
        → AreApart (wg_peers quote ip_text o m n s).0.peers
    unfolding wg_peers
    wg_peers-AreApart get n s apart = apart
    wg_peers-AreApart post n s apart = post_peer-AreApart n s apart
    wg_peers-AreApart _ n s apart = apart

    pub handle_wg_peers-AreClientsApart :
        (r : Request) (s : Option Server)
        → AreClientsApart s
        → AreClientsApart (handle_wg_peers quote ip_text o r s).0
    unfolding handle_wg_peers
    handle_wg_peers-AreClientsApart r none apart = tt
    handle_wg_peers-AreClientsApart r (some s) apart =
        wg_peers-AreApart r.method r.peer_name s apart

  tell_removed-server :
      (name : Bytes) (r : Server × Option GoError) → (tell_removed quote ip_text o name r).0 ≡ r.0
  unfolding tell_removed
  tell_removed-server name (s, e) = refl

  peer_action-AreApart :
      (m : Method) (x : Bytes × Option Bytes) (s : Server)
      → AreApart s.peers
      → AreApart (peer_action quote ip_text o m x s).0.peers
  unfolding peer_action
  peer_action-AreApart m (name, part) s apart = elim (Bool-cases (is_empty name)) [
    | inl e ↦ rw e apart
    | inr e ↦ elim (Bool-cases (is_delete m)) [
      | inl d ↦
          rw (e, d, tell_removed-server name (remove_peer o.answers.unsets o.writing name s))
            (remove_peer-AreApart o.answers.unsets o.writing name s apart)
      | inr d ↦ elim (Bool-cases (is_get m && is_config quote ip_text o part)) [
        | inl g ↦ rw (e, d, g) apart
        | inr g ↦ rw (e, d, g) apart
      ]
    ]
  ]

  pub handle_wg_peer_action-AreClientsApart :
      (r : Request) (s : Option Server)
      → AreClientsApart s
      → AreClientsApart (handle_wg_peer_action quote ip_text o r s).0
  unfolding handle_wg_peer_action
  handle_wg_peer_action-AreClientsApart r none apart = tt
  handle_wg_peer_action-AreClientsApart r (some s) apart = peer_action-AreApart r.method _ s apart

  tell_mode-controller : (r : Controller × Option GoError) → (tell_mode quote ip_text o r).0 ≡ r.0
  unfolding tell_mode
  tell_mode-controller (c, some e) = refl
  tell_mode-controller (c, none) = refl

  set_mode-told :
      (mode country : Bytes) (port : ℕ) (c : Controller)
      → IsConsistent (tell_mode quote ip_text o (set_mode mode country port c)).0
  set_mode-told mode country port c =
      rw (tell_mode-controller (set_mode mode country port c))
        (set_mode-IsConsistent mode country port c).1

  proxy_through-IsConsistent :
      (country : Bytes) (port : Option ℕ) (c : Controller)
      → IsConsistent c
      → IsConsistent (proxy_through quote ip_text o country port c).0
  unfolding proxy_through
  proxy_through-IsConsistent country none c h = h
  proxy_through-IsConsistent country (some port) c h = set_mode-told mode_proxied country port c

  pub by_method-IsConsistent :
      (m : Method) (w : Result Wanted) (k : Checker) (c : Controller)
      → IsConsistent c
      → IsConsistent (by_method quote ip_text o m w k c).0
  unfolding by_method post_routing
  by_method-IsConsistent get w k c h = h
  by_method-IsConsistent post (err e) k c h = h
  by_method-IsConsistent post (ok w) k c h = elim (Bool-cases (bytes_eq w.mode (codes "proxied"))) [
    | inl e ↦
        rw e
          (proxy_through-IsConsistent w.country (port_for quote ip_text o w.port k.gold_ports) c h)
    | inr e ↦ rw e (set_mode-told mode_direct w.country w.port c)
  ]
  by_method-IsConsistent _ w k c h = h
