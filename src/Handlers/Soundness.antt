-- ===== src/Handlers/Soundness.antt =====
-- What every request keeps in all components (internal/handlers/routes.go).
use mathlib.Core.Path.{subst}
use wg_proxy.Common.{
  ℕ, ◌+◌, ◌^◌, ◌<◌, ◌≡◌, refl, ap, Option, none, some, List, some-inj, none-ne-some,
}
use wg_proxy.Common.Bytes.{Bytes}
use wg_proxy.Tunnels.Manager.{Host, World}
use wg_proxy.Tunnels.Manager.Validity.{IsValid}
use wg_proxy.WgServer.Server.Clients.{NoSlash}
use wg_proxy.WgServer.Routing.{Controller}
use wg_proxy.WgServer.Routing.Modes.{IsConsistent}
use wg_proxy.Handlers.{App, Request, Outside, Response}
use wg_proxy.Handlers.Listing.{Rendering}
use wg_proxy.Handlers.Actions.{Acted, handle_tunnel_action}
use wg_proxy.Handlers.Vpn.{handle_routing}
use wg_proxy.Handlers.Routes.{
  Route, import_route, import_url_route, import_custom_route, tunnel_route, wg_peers_route,
  wg_routing_route, wg_peer_route, routed, acted, dispatch, route, handle,
}
use wg_proxy.Handlers.Invariants.{
  handle_import-IsValid, handle_import_url-IsValid, handle_import_custom-IsValid,
  handle_tunnel_action-IsKept,
}
use wg_proxy.Handlers.Clients.{
  AreClientsApart, handle_wg_peers-AreClientsApart, handle_wg_peer_action-AreClientsApart,
  by_method-IsConsistent,
}

abbrev pub IsRoutingConsistent : Option Controller → Type 0
IsRoutingConsistent none = Unit {0}
IsRoutingConsistent (some c) = IsConsistent c

-- The manager is well formed, the VPN clients' names and addresses are distinct, and the routing is
-- direct without a country or proxied with a port.
pub record IsSound (a : App) : Type 0 where
  pub manager : IsValid a.world
  pub clients : AreClientsApart a.wg
  pub routing : IsRoutingConsistent a.routing

module _ (h : Host) (ip_text : List ℕ → Bytes) (t : Rendering) (o : Outside) (r : Request)
    (plain : (b : List ℕ) → NoSlash (ip_text b)) (a : App) (fits : a.world.next_port + 1 < 2 ^ 64)
    (sound : IsSound a) where
  routed-IsSound : (c : Option Controller) → a.routing ≡ c → IsSound (routed h ip_text t o r c a).0
  unfolding routed handle_routing
  routed-IsSound none e = sound
  routed-IsSound (some c) e = record {
    manager = sound.manager;
    clients = sound.clients;
    routing =
        by_method-IsConsistent h.quote ip_text o r.method r.wanted a.checker c
          (subst IsRoutingConsistent e sound.routing);
  }

  acted-IsSound :
      (x : Acted) (b : App) (y : Response)
      → ((v : World) (z : Response) → x ≡ some (v, z) → IsValid v)
      → acted h ip_text t a x ≡ some (b, y)
      → IsSound b
  unfolding acted
  acted-IsSound none b y k e = absurd (none-ne-some e)
  acted-IsSound (some (v, z)) b y k e =
      subst IsSound (ap (λ q. q.0) (some-inj e))
        record { manager = k v z refl; clients = sound.clients; routing = sound.routing }

  dispatch-IsSound :
      (k : Route) (b : App) (y : Response) → dispatch h ip_text t o r k a ≡ some (b, y) → IsSound b
  unfolding dispatch
  dispatch-IsSound import_route b y e = subst IsSound (ap (λ q. q.0) (some-inj e)) record {
    manager = handle_import-IsValid h o a.world fits sound.manager r;
    clients = sound.clients;
    routing = sound.routing;
  }
  dispatch-IsSound import_url_route b y e = subst IsSound (ap (λ q. q.0) (some-inj e)) record {
    manager = handle_import_url-IsValid h o a.world fits sound.manager r;
    clients = sound.clients;
    routing = sound.routing;
  }
  dispatch-IsSound import_custom_route b y e = subst IsSound (ap (λ q. q.0) (some-inj e)) record {
    manager = handle_import_custom-IsValid h o a.world fits sound.manager r;
    clients = sound.clients;
    routing = sound.routing;
  }
  dispatch-IsSound tunnel_route b y e =
      acted-IsSound (handle_tunnel_action h o r a.world) b y
        (handle_tunnel_action-IsKept h o a.world sound.manager r) e
  dispatch-IsSound wg_peers_route b y e = subst IsSound (ap (λ q. q.0) (some-inj e)) record {
    manager = sound.manager;
    clients = handle_wg_peers-AreClientsApart h.quote ip_text o plain r a.wg sound.clients;
    routing = sound.routing;
  }
  dispatch-IsSound wg_routing_route b y e =
      subst IsSound (ap (λ q. q.0) (some-inj e)) (routed-IsSound a.routing refl)
  dispatch-IsSound wg_peer_route b y e = subst IsSound (ap (λ q. q.0) (some-inj e)) record {
    manager = sound.manager;
    clients = handle_wg_peer_action-AreClientsApart h.quote ip_text o r a.wg sound.clients;
    routing = sound.routing;
  }
  dispatch-IsSound _ b y e = subst IsSound (ap (λ q. q.0) (some-inj e)) sound

-- Where `net.IP.String` writes no slash and the next port fits into 64 bits, every request that is
-- answered keeps the manager well formed, the names and the addresses of the VPN clients distinct,
-- and the routing consistent.
pub handle-IsSound :
    (h : Host) (ip_text : List ℕ → Bytes) (t : Rendering) (o : Outside) (r : Request) (a b : App)
    (y : Response)
    → ((n : List ℕ) → NoSlash (ip_text n))
    → a.world.next_port + 1 < 2 ^ 64
    → handle h ip_text t o r a ≡ some (b, y)
    → IsSound a
    → IsSound b
unfolding handle
handle-IsSound h ip_text t o r a b y plain fits e sound =
    dispatch-IsSound h ip_text t o r plain a fits sound (route r.path) b y e
