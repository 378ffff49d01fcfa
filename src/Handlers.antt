-- ===== src/Handlers.antt =====
-- The HTTP interface (internal/handlers/routes.go): a handler is a function on the `App`, which
-- holds the components that it may call, and on a request. What decoding the body, the network and
-- the operating system return is an argument. `none` is a panic.
pub mod Listing
pub mod Imports
pub mod Actions
pub mod Vpn
pub mod Routes
pub mod Safety
pub mod Invariants
pub mod Clients
pub mod Soundness
pub mod Requests
use wg_proxy.Common.{ℕ, Bool, true, false, Option, none, some, List, [], ◌∷◌, ◌>>=◌}
use wg_proxy.Common.Bytes.{Bytes, codes}
use wg_proxy.Common.Errors.{GoError, Result, error_string}
use wg_proxy.Tunnels.Manager.{World}
use wg_proxy.Tunnels.Manager.Actions.{Exit, Removal}
use wg_proxy.Health.{Checker}
use wg_proxy.Proxy.Countries.{Countries}
use wg_proxy.WgServer.Peers.{Peer, Writing}
use wg_proxy.WgServer.Server.{Server, ServerStatus, ClientConfig, Answers}
use wg_proxy.WgServer.Routing.{Controller}

-- The arguments of `RegisterRoutes`; `wg` and `routing` may be nil.
pub record App : Type 0 where
  pub world : World
  pub checker : Checker
  pub countries : Countries
  pub wg : Option Server
  pub routing : Option Controller

-- `r.Method`, by the constants that it is compared with
pub data Method : Type 0 where
  get post delete : Method
  another : Bytes → Method

abbrev pub is_get : Method → Bool
is_get get = true
is_get _ = false

abbrev pub is_post : Method → Bool
is_post post = true
is_post _ = false

abbrev pub is_delete : Method → Bool
is_delete delete = true
is_delete _ = false

-- The body that `handleImportCustom` decodes.
pub record Custom : Type 0 where
  pub name : Bytes
  pub private_key : Bytes
  pub address : Bytes
  pub dns : Bytes
  pub peer_pubkey : Bytes
  pub endpoint : Bytes
  pub persistent_keepalive : ℕ

-- The body that `handleRouting` decodes.
pub record Wanted : Type 0 where
  pub mode : Bytes
  pub country : Bytes
  pub port : ℕ

-- A request, with what each decoder makes of its body: `form` is the result of
-- `ParseMultipartForm`, and `file` that of `FormFile` with what `io.ReadAll` returns.
pub record Request : Type 0 where
  pub method : Method
  pub path : Bytes
  pub form : Option GoError
  pub file : Result (Bytes × Result Bytes)
  pub url : Result Bytes
  pub custom : Result Custom
  pub peer_name : Result Bytes
  pub wanted : Result Wanted

-- What the world answers while the request is handled. `download` is `http.Get`, with the status
-- and the result of reading the body, and `index_file` the embedded page.
pub record Outside : Type 0 where
  pub exit : Exit
  pub removal : Removal
  pub import_fault : Option GoError
  pub download : Bytes → Result (ℕ × Result Bytes)
  pub answers : Answers
  pub writing : Writing
  pub public_ip : Bytes
  pub index_file : Result Bytes

-- `tunnelInfo`
pub record TunnelInfo : Type 0 where
  pub name : Bytes
  pub status : Bytes
  pub port : ℕ
  pub latency : Bytes
  pub error_text : Bytes
  pub bytes_in : ℕ
  pub bytes_out : ℕ
  pub conn_count : ℕ
  pub uptime : Bytes

-- The map that `handleStats` writes.
pub record StatsInfo : Type 0 where
  pub total_tunnels : ℕ
  pub healthy_tunnels : ℕ
  pub avg_latency : Bytes
  pub total_checks : ℕ
  pub last_check : Bytes
  pub total_bytes_in : ℕ
  pub total_bytes_out : ℕ
  pub total_conns : ℕ

-- The bodies of the responses; `texts` is a JSON object of strings.
pub data Body : Type 0 where
  plain : Bytes → Body
  texts : List (Bytes × Bytes) → Body
  tunnel_list : List TunnelInfo → Body
  stats : StatsInfo → Body
  country_ports : List (Bytes × ℕ) → Body
  wg_disabled : Body
  wg_status : ServerStatus → Body
  peer_list : List Peer → Body
  new_client : ClientConfig → Bytes → Body
  attachment : Bytes → Bytes → Body
  routing_status : Bytes × Bytes × ℕ → Body
  gold : List ℕ → ℕ → Body
  html : Bytes → Body
  events : Body

pub record Response : Type 0 where
  pub status : ℕ
  pub body : Body

abbrev pub Handled : Type 0
Handled = Option (App × Response)

-- `http.Error`
abbrev pub http_error : Bytes → ℕ → Response
http_error text status = record { status = status; body = plain text }

-- `writeJSON`
abbrev pub write_json : ℕ → Body → Response
write_json status body = record { status = status; body = body }

-- A response of another kind, with the status 200.
abbrev pub sent : Body → Response
sent body = record { status = 200; body = body }

-- `map[string]string{"error": …}`
abbrev pub json_error : ℕ → Bytes → Response
json_error status text = write_json status (texts ((codes "error", text) ∷ []))

-- `map[string]string{"status": …, "name": …}`
abbrev pub done : Bytes → Bytes → Response
done what name = write_json 200 (texts ((codes "status", what) ∷ (codes "name", name) ∷ []))

-- The response to a method that returned an error, or nil.
abbrev pub answer : (Bytes → Bytes) → ℕ → Bytes → Bytes → Option GoError → Response
answer quote status what name (some e) = json_error status (error_string quote e)
answer quote status what name none = done what name

abbrev pub respond : App → Response → Handled
respond a r = some (a, r)

abbrev pub not_allowed : Response
not_allowed = http_error (codes "Method not allowed") 405

abbrev pub not_found_response : Response
not_found_response = http_error (codes "Not found") 404
