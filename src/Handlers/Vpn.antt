-- ===== src/Handlers/Vpn.antt =====
-- The handlers of the VPN server and of its routing (internal/handlers/routes.go).
use wg_proxy.Common.{
  ℕ, zero, suc, Bool, false, not, ◌&&◌, Option, none, some, List, [], ◌∷◌, ◌++◌, ◌==◌,
  if◌then◌else◌,
}
use wg_proxy.Common.Bytes.{Bytes, codes, bytes_eq, is_empty}
use wg_proxy.Common.Errors.{GoError, Result, ok, err, error_string}
use wg_proxy.Common.Strings.{trim_prefix}
use wg_proxy.Health.{Checker}
use wg_proxy.WgServer.Server.{
  Server, ClientConfig, Added, add_peer, remove_peer, get_client_config, status,
}
use wg_proxy.WgServer.Network.{to_ini}
use wg_proxy.WgServer.Routing.{Controller, mode_direct, mode_proxied, set_mode, get_status}
use wg_proxy.Handlers.{
  Method, get, post, is_get, is_delete, Wanted, Request, Outside, Response, wg_disabled, wg_status,
  peer_list, new_client, attachment, routing_status, http_error, write_json, sent, json_error,
  answer, not_allowed, not_found_response,
}

-- `handleWGStatus`
unfoldable pub handle_wg_status : Outside → Method → Option Server → Response
handle_wg_status o m none = if not (is_get m) then not_allowed else write_json 200 wg_disabled
handle_wg_status o m (some s) =
    if not (is_get m) then not_allowed else write_json 200 (wg_status (status o.public_ip s))

abbrev pub not_enabled : Response
not_enabled = json_error 503 (codes "WG server not enabled")

abbrev pub missing_name : Response
missing_name = json_error 400 (codes "missing or invalid 'name' field")

-- The text before the first slash, and what is behind it if there is one: `strings.SplitN(s, "/",
-- 2)`.
unfoldable pub split_slash : Bytes → Bytes × Option Bytes
split_slash [] = ([], none)
split_slash (c ∷ s) =
    let (name, rest) = split_slash s in if c == b'/' then ([], some s) else (c ∷ name, rest)

module _ (quote : Bytes → Bytes) (ip_text : List ℕ → Bytes) (o : Outside) where
  unfoldable pub tell_added : Added → Server × Response
  tell_added (s, err e) = (s, json_error 500 (error_string quote e))
  tell_added (s, ok c) = (s, write_json 200 (new_client c (to_ini c)))

  unfoldable pub post_peer : Result Bytes → Server → Server × Response
  post_peer (err e) s = (s, missing_name)
  post_peer (ok name) s =
      if is_empty name then (s, missing_name) else tell_added (add_peer ip_text o.answers name s)

  unfoldable pub wg_peers : Method → Result Bytes → Server → Server × Response
  wg_peers get name s = (s, write_json 200 (peer_list s.peers.peers))
  wg_peers post name s = post_peer name s
  wg_peers _ name s = (s, not_allowed)

  abbrev pub with_server : Server × Response → Option Server × Response
  with_server (s, r) = (some s, r)

  -- `handleWGPeers`
  unfoldable pub handle_wg_peers : Request → Option Server → Option Server × Response
  handle_wg_peers r none = (none, not_enabled)
  handle_wg_peers r (some s) = with_server (wg_peers r.method r.peer_name s)

  unfoldable pub tell_removed : Bytes → Server × Option GoError → Server × Response
  tell_removed name (s, e) = (s, answer quote 404 (codes "deleted") name e)

  unfoldable pub send_config : Bytes → Result ClientConfig → Response
  send_config name (err e) = json_error 404 (error_string quote e)
  send_config name (ok c) = sent (attachment (name ++ codes ".conf") (to_ini c))

  abbrev pub is_config : Option Bytes → Bool
  is_config none = false
  is_config (some part) = bytes_eq part (codes "config")

  unfoldable pub peer_action : Method → Bytes × Option Bytes → Server → Server × Response
  peer_action m (name, part) s =
      if is_empty name
      then (s, not_found_response)
      else (if is_delete m
          then tell_removed name (remove_peer o.answers.unsets o.writing name s)
          else (if is_get m && is_config part
              then (s, send_config name (get_client_config o.public_ip name s))
              else (s, not_found_response)))

  -- `handleWGPeerAction`
  unfoldable pub handle_wg_peer_action : Request → Option Server → Option Server × Response
  handle_wg_peer_action r none = (none, not_enabled)
  handle_wg_peer_action r (some s) =
      with_server
        (peer_action r.method (split_slash (trim_prefix r.path (codes "/api/wg/peers/"))) s)

  abbrev pub current : Controller → Response
  current c = write_json 200 (routing_status (get_status c))

  unfoldable pub tell_mode : Controller × Option GoError → Controller × Response
  tell_mode (c, some e) = (c, json_error 500 (error_string quote e))
  tell_mode (c, none) = (c, current c)

  abbrev pub no_gold : Response
  no_gold = json_error 503 (codes "no HTTPS-verified backends available yet, try again in 30s")

  -- The port of a proxied mode: the requested one, or the first verified one.
  unfoldable pub port_for : ℕ → List ℕ → Option ℕ
  port_for zero [] = none
  port_for zero (p ∷ ps) = some p
  port_for (suc n) ps = some (suc n)

  unfoldable pub proxy_through : Bytes → Option ℕ → Controller → Controller × Response
  proxy_through country none c = (c, no_gold)
  proxy_through country (some port) c = tell_mode (set_mode mode_proxied country port c)

  unfoldable pub post_routing : Result Wanted → Checker → Controller → Controller × Response
  post_routing (err e) k c = (c, json_error 400 (codes "invalid request"))
  post_routing (ok w) k c =
      if bytes_eq w.mode (codes "proxied")
      then proxy_through w.country (port_for w.port k.gold_ports) c
      else tell_mode (set_mode mode_direct w.country w.port c)

  unfoldable pub by_method : Method → Result Wanted → Checker → Controller → Controller × Response
  by_method get w k c = (c, current c)
  by_method post w k c = post_routing w k c
  by_method _ w k c = (c, http_error (codes "method not allowed") 405)

  -- `handleRouting`
  unfoldable pub handle_routing : Request → Checker → Controller → Controller × Response
  unfolding by_method
  handle_routing r k c = by_method r.method r.wanted k c
