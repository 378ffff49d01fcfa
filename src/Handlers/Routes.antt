-- ===== src/Handlers/Routes.antt =====
-- `RegisterRoutes` (internal/handlers/routes.go), with the dispatch of `http.ServeMux` on a clean
-- path: a pattern that ends in a slash is a prefix, and the longest pattern that matches wins.
use wg_proxy.Common.{ℕ, Option, none, some, List, [], ◌∷◌, if◌then◌else◌}
use wg_proxy.Common.Bytes.{Bytes, codes, bytes_eq}
use wg_proxy.Common.Strings.{has_prefix}
use wg_proxy.Tunnels.Manager.{Host, World}
use wg_proxy.WgServer.Server.{Server}
use wg_proxy.WgServer.Routing.{Controller}
use wg_proxy.Dashboard.{Page, page, missing_page, broken_page, serve_dashboard}
use wg_proxy.Handlers.{
  App, Request, Outside, Response, Handled, html, events, respond, http_error, sent, json_error,
}
use wg_proxy.Handlers.Listing.{
  Rendering, handle_tunnels, handle_stats, handle_countries, handle_gold,
}
use wg_proxy.Handlers.Imports.{handle_import, handle_import_url, handle_import_custom}
use wg_proxy.Handlers.Actions.{Acted, handle_tunnel_action}
use wg_proxy.Handlers.Vpn.{handle_wg_status, handle_wg_peers, handle_wg_peer_action, handle_routing}

-- The registered patterns.
pub data Route : Type 0 where
  tunnels_route import_route import_url_route import_custom_route tunnel_route stats_route : Route
  countries_route wg_status_route wg_peers_route wg_routing_route wg_peer_route gold_route : Route
  events_route dashboard_route : Route

abbrev pub exact_routes : List (Bytes × Route)
exact_routes =
    (codes "/api/tunnels", tunnels_route)
    ∷ (codes "/api/tunnels/import", import_route)
    ∷ (codes "/api/tunnels/import-url", import_url_route)
    ∷ (codes "/api/tunnels/import-custom", import_custom_route)
    ∷ (codes "/api/stats", stats_route)
    ∷ (codes "/api/countries", countries_route)
    ∷ (codes "/api/wg/status", wg_status_route)
    ∷ (codes "/api/wg/peers", wg_peers_route)
    ∷ (codes "/api/wg/routing", wg_routing_route)
    ∷ (codes "/api/health/gold", gold_route)
    ∷ (codes "/api/events", events_route)
    ∷ []

-- The prefixes, of which one at most matches besides `/`.
abbrev pub prefix_route : Bytes → Route
prefix_route path =
    if has_prefix path (codes "/api/tunnels/")
    then tunnel_route
    else (if has_prefix path (codes "/api/wg/peers/") then wg_peer_route else dashboard_route)

-- How the dashboard answers.
abbrev pub page_response : Page → Response
page_response (page text) = sent (html text)
page_response missing_page = http_error (codes "404 page not found") 404
page_response broken_page = http_error (codes "Dashboard not found") 500

unfoldable pub route_in : List (Bytes × Route) → Bytes → Route
route_in [] path = prefix_route path
route_in ((pattern_text, r) ∷ rs) path = if bytes_eq path pattern_text then r else route_in rs path

unfoldable pub route : Bytes → Route
unfolding route_in
route path = route_in exact_routes path

module _ (h : Host) (ip_text : List ℕ → Bytes) (t : Rendering) where
  abbrev pub with_world : App → World × Response → App × Response
  with_world a (w, r) = (record a { world = w }, r)

  abbrev pub with_wg : App → Option Server × Response → App × Response
  with_wg a (s, r) = (record a { wg = s }, r)

  abbrev pub with_routing : App → Controller × Response → App × Response
  with_routing a (c, r) = (record a { routing = some c }, r)

  unfoldable pub routed : Outside → Request → Option Controller → App → App × Response
  routed o r none a = (a, json_error 404 (codes "routing not available"))
  routed o r (some c) a = with_routing a (handle_routing h.quote ip_text o r a.checker c)

  unfoldable pub acted : App → Acted → Handled
  acted a none = none
  acted a (some (w, r)) = some (record a { world = w }, r)

  unfoldable pub dispatch : Outside → Request → Route → App → Handled
  dispatch o r tunnels_route a = respond a (handle_tunnels t r.method a.world)
  dispatch o r import_route a = some (with_world a (handle_import h o r a.world))
  dispatch o r import_url_route a = some (with_world a (handle_import_url h o r a.world))
  dispatch o r import_custom_route a = some (with_world a (handle_import_custom h o r a.world))
  dispatch o r tunnel_route a = acted a (handle_tunnel_action h o r a.world)
  dispatch o r stats_route a = respond a (handle_stats t r.method a.world a.checker)
  dispatch o r countries_route a = respond a (handle_countries r.method a.countries)
  dispatch o r wg_status_route a = respond a (handle_wg_status o r.method a.wg)
  dispatch o r wg_peers_route a = some (with_wg a (handle_wg_peers h.quote ip_text o r a.wg))
  dispatch o r wg_routing_route a = some (routed o r a.routing a)
  dispatch o r wg_peer_route a = some (with_wg a (handle_wg_peer_action h.quote ip_text o r a.wg))
  dispatch o r gold_route a = respond a (handle_gold a.checker)
  dispatch o r events_route a = respond a (sent events)
  dispatch o r dashboard_route a = respond a (page_response (serve_dashboard o.index_file r.path))

  -- A request to the server.
  unfoldable pub handle : Outside → Request → App → Handled
  handle o r a = dispatch o r (route r.path) a
