-- ===== src/Handlers/Actions.antt =====
-- `handleTunnelAction` (internal/handlers/routes.go).
use wg_proxy.Common.{Bool, true, false, not, ◌&&◌, Option, none, some, List, [], ◌∷◌, if◌then◌else◌}
use wg_proxy.Common.Bytes.{Bytes, codes, bytes_eq, is_empty}
use wg_proxy.Common.Strings.{split, trim_prefix}
use wg_proxy.Tunnels.Manager.{Host, World}
use wg_proxy.Tunnels.Manager.Actions.{Outcome, restart, disconnect}
use wg_proxy.Tunnels.Manager.Actions
use wg_proxy.Handlers.{
  Method, is_post, is_delete, Request, Outside, Response, http_error, answer, not_allowed,
  not_found_response,
}

abbrev pub Acted : Type 0
Acted = Option (World × Response)

abbrev pub is_last : List Bytes → Bool
is_last [] = true
is_last (_ ∷ _) = false

abbrev pub unknown_action : Response
unknown_action = http_error (codes "Unknown action") 404

module _ (h : Host) (o : Outside) where
  unfoldable pub tell : Bytes → Bytes → Outcome → Acted
  tell what name none = none
  tell what name (some (w, e)) = some (w, answer h.quote 404 what name e)

  unfoldable pub delete_tunnel : Bytes → World → Acted
  delete_tunnel name w =
      tell (codes "deleted") name (Actions.delete h.quote o.exit o.removal name w)

  -- The `switch` on the action.
  unfoldable pub perform : Method → Bytes → Bytes → World → Acted
  perform m name action w =
      if bytes_eq action (codes "restart")
      then (if not (is_post m)
          then some (w, not_allowed)
          else tell (codes "restarting") name (restart h.quote o.exit name w))
      else (if bytes_eq action (codes "disconnect")
          then (if not (is_post m)
              then some (w, not_allowed)
              else tell (codes "disconnected") name (disconnect h.quote o.exit name w))
          else some (w, unknown_action))

  -- The second part of the path.
  unfoldable pub act : Method → Bytes → List Bytes → World → Acted
  act m name [] w = some (w, not_found_response)
  act m name (action ∷ parts) w = perform m name action w

  unfoldable pub act_on : Method → List Bytes → World → Acted
  act_on m [] w = some (w, not_found_response)
  act_on m (name ∷ parts) w =
      if is_empty name
      then some (w, not_found_response)
      else (if is_delete m && is_last parts then delete_tunnel name w else act m name parts w)

  -- `handleTunnelAction`
  unfoldable pub handle_tunnel_action : Request → World → Acted
  handle_tunnel_action r w =
      act_on r.method (split b'/' (trim_prefix r.path (codes "/api/tunnels/"))) w
