-- ===== src/Handlers/Safety.antt =====
-- Requests that only read (internal/handlers/routes.go).
use wg_proxy.Common.{◌≡◌, false, some}
use wg_proxy.Common.Bytes.{Bytes}
use wg_proxy.Tunnels.Manager.{Host, World}
use wg_proxy.WgServer.Server.{Server}
use wg_proxy.Handlers.{App, is_post, is_delete, Request, Outside, Response, Handled}
use wg_proxy.Handlers.Actions.{Acted}

-- The outcome of a handler that left its state alone.
Unchanged : {A : Type 0} → A → A × Response → Type 0
Unchanged a r = r.0 ≡ a

Stays : World → Acted → Type 0
Stays w r = (x : Response) × (r ≡ some (w, x))

module _ (h : Host) (o : Outside) (r : Request) (no_post : is_post r.method ≡ false)
    (no_delete : is_delete r.method ≡ false) where
  tell_app : App → Response → Handled
  tell_app a x = some (a, x)
