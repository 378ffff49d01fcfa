-- ===== src/Proxy/Connection/Service.antt =====
-- What a served client gets from `handleConnection` (internal/proxy/server.go).
use wg_proxy.Common.{ℕ, ◌≡◌, ◌⊎◌, Option, some, List, [], ◌∷◌, ◌++◌}
use wg_proxy.Common.Bytes.{Bytes}
use wg_proxy.Tunnels.{Cells, store}
use wg_proxy.Proxy.Conn.{Incoming}
use wg_proxy.Proxy.Socks.{reply, succeeded}
use wg_proxy.Proxy.Picker.{Pick}
use wg_proxy.Proxy.Connection.Handshake.{Accepts, Meets}
use wg_proxy.Proxy.Connection.{Backend, Run, negotiate, read_request, count_traffic, copy_to}

-- A run that went on from `r0` and served nobody.
pub record IsQuiet (r0 r : Run) : Type 0 where
  pub same_cells : r.cells ≡ r0.cells
  pub nothing_in : r.relayed_in ≡ r0.relayed_in
  pub nothing_out : r.relayed_out ≡ r0.relayed_out

-- The request was served: by the tunnel `t` that the picker named, through a backend that took the
-- handshake and the request and reported success. The client was told so after `told`; the
-- backend's stream behind its answer and the client's stream `left` were relayed, each as far as
-- the other end takes it; and the traffic is on the account of `t` alone.
pub record Served (pick : Cells → ℕ → Option Pick) (dial : Bytes → Option Backend) (counter : ℕ)
    (cells : Cells) (told : List Bytes) (request : Bytes) (left : Incoming) (r : Run) : Type 0 where
  pub t : ℕ
  pub address : Bytes
  pub p : Pick
  pub b : Backend
  pub sends : Incoming
  pub rest : Incoming
  pub picked : pick cells counter ≡ some p
  pub chosen : p.chosen ≡ some (address, t)
  pub counted : r.counter ≡ p.counter
  pub dialled : dial address ≡ some b
  pub meets : Meets b request r.to_backend sends
  pub accepts : Accepts sends rest
  pub success : r.to_client ≡ told ++ (reply succeeded ∷ [])
  pub relayed_in : r.relayed_in ≡ copy_to b.client_takes rest
  pub relayed_out : r.relayed_out ≡ copy_to b.takes left
  pub accounted : r.cells ≡ store cells t (count_traffic (cells t) r.relayed_in r.relayed_out)

module _ (pick : Cells → ℕ → Option Pick) (dial : Bytes → Option Backend) (counter : ℕ)
    (cells : Cells) where
  abbrev Outcome : Bytes → Incoming → Run → Run → Type 0
  Outcome request left r0 r =
      IsQuiet r0 r ⊎ Served pick dial counter cells r0.to_client request left r

module _ (pick : Cells → ℕ → Option Pick) (dial : Bytes → Option Backend) (user pass : Bytes)
    (client : Incoming) (counter : ℕ) (cells : Cells) where
  -- The client passed the login phase, sent a CONNECT request, and was served.
  abbrev pub IsServed : Run → Type 0
  IsServed r =
      (told : List Bytes) × (rest : Incoming) × (request : Bytes) × (left : Incoming) × (negotiate
          user pass client
        ≡ some (told, some rest))
      × (read_request rest ≡ some (some (request, left)))
      × Served pick dial counter cells told request left r
