-- ===== src/Dashboard.antt =====
-- The dashboard (internal/web/dashboard.go): the page, the state that it shows, and the clients
-- that follow that state. A message is the JSON text of a state.
pub mod Broadcast
pub mod Queues
pub mod Stream
pub mod Totals
use wg_proxy.Common.{
  ℕ, zero, suc, ◌≡◌, not, ◌&&◌, Option, none, some, List, [], ◌∷◌, ◌++◌, ltb, map, if◌then◌else◌,
  length,
}
use wg_proxy.Common.Bytes.{Bytes, codes, bytes_eq}
use wg_proxy.Common.Errors.{Result, ok, err}
use wg_proxy.Tunnels.{Tunnel, status_text, Cells, add64}
use wg_proxy.Tunnels.Manager.{World}
use wg_proxy.Health.{Checker, quotient}

-- What `ServeDashboard` answers.
pub data Page : Type 0 where
  page : Bytes → Page
  missing_page broken_page : Page

abbrev pub shown : Result Bytes → Page
shown (ok data_text) = page data_text
shown (err e) = broken_page

-- `ServeDashboard`, where `file` is the embedded static/index.html
unfoldable pub serve_dashboard : Result Bytes → Bytes → Page
serve_dashboard file path =
    if not (bytes_eq path (codes "/")) && not (bytes_eq path (codes "/index.html"))
    then missing_page
    else shown file

-- `tunnelState`
pub record TunnelState : Type 0 where
  pub name : Bytes
  pub status : Bytes
  pub port : ℕ
  pub latency_ms : ℕ
  pub error_text : Bytes
  pub bytes_in : ℕ
  pub bytes_out : ℕ
  pub conn_count : ℕ
  pub uptime : Bytes

-- The variables of the loop in `collectState`.
pub record Sums : Type 0 where
  pub tunnels : List TunnelState
  pub bytes_in : ℕ
  pub bytes_out : ℕ
  pub conns : ℕ

-- The map that `collectState` returns.
pub record DashboardState : Type 0 where
  pub sums : Sums
  pub healthy_count : ℕ
  pub total_count : ℕ
  pub avg_latency_ms : ℕ
  pub total_checks : ℕ

-- `Duration.Milliseconds`
abbrev pub milliseconds : ℕ → ℕ
milliseconds d = quotient d 1000000

-- `uptime_text` prints the time since a start.
module _ (uptime_text : ℕ → Bytes) where
  abbrev pub uptime_of : Option ℕ → Bytes
  uptime_of none = []
  uptime_of (some t) = uptime_text t

  unfoldable pub tunnel_state : Tunnel → TunnelState
  unfolding status_text
  tunnel_state t = record {
    name = t.name;
    status = status_text t.status;
    port = t.proxy_port;
    latency_ms = milliseconds t.latency;
    error_text = t.error_text;
    bytes_in = t.bytes_in;
    bytes_out = t.bytes_out;
    conn_count = t.conn_count;
    uptime = uptime_of t.started_at;
  }

  -- One round of the loop.
  unfoldable pub sum_one : TunnelState → Sums → Sums
  sum_one t s = record {
    tunnels = s.tunnels ++ (t ∷ []);
    bytes_in = add64 s.bytes_in t.bytes_in;
    bytes_out = add64 s.bytes_out t.bytes_out;
    conns = add64 s.conns t.conn_count;
  }

  unfoldable pub sum_loop : Cells → List ℕ → Sums → Sums
  unfolding sum_one tunnel_state
  sum_loop cells [] s = s
  sum_loop cells (p ∷ ps) s = sum_loop cells ps (sum_one (tunnel_state (cells p)) s)

  abbrev pub no_sums : Sums
  no_sums = record { tunnels = []; bytes_in = 0; bytes_out = 0; conns = 0 }

  -- `collectState`
  unfoldable pub collect_state : World → Checker → DashboardState
  unfolding sum_loop
  collect_state w c = record {
    sums = sum_loop w.cells w.tunnels no_sums;
    healthy_count = c.stats.healthy_count;
    total_count = c.stats.total_count;
    avg_latency_ms = milliseconds c.stats.avg_latency;
    total_checks = c.stats.total_checks;
  }

-- A client of `HandleSSE`: its channel, of capacity 8, and the messages that were written to it
-- from the channel.
pub record Client : Type 0 where
  pub queue : List Bytes
  pub written : List Bytes

abbrev pub capacity : ℕ
capacity = 8

-- `make(chan []byte, 8)`
abbrev pub new_client : Client
new_client = record { queue = []; written = [] }

-- The `select` of `broadcastLoop`: a full channel is passed over.
unfoldable pub offer : Bytes → Client → Client
offer m c = if ltb (length c.queue) capacity then record c { queue = c.queue ++ (m ∷ []) } else c

-- The `select` of `HandleSSE`, where it takes a message and writes it; `none` waits.
unfoldable pub take_from : List Bytes → List Bytes → Option Client
take_from [] written = none
take_from (m ∷ ms) written = some record { queue = ms; written = written ++ (m ∷ []) }

abbrev pub take_message : Client → Option Client
take_message c = take_from c.queue c.written

-- The loop of `HandleSSE`, for `n` rounds, or until it waits.
unfoldable pub take_messages : ℕ → Client → Client
take_messages zero c = c
take_messages (suc n) c = elim (take_message c) [ none ↦ c | some d ↦ take_messages n d ]

-- The clients that are connected, after the messages of `broadcastLoop`, in order.
pub data Reach : List Bytes → List Client → Type 0 where
  begins : Reach [] []
  connects : {log : List Bytes} {cs : List Client} → Reach log cs → Reach log (new_client ∷ cs)
  broadcasts :
      {log : List Bytes} {cs : List Client} (m : Bytes)
      → Reach log cs
      → Reach (log ++ (m ∷ [])) (map (offer m) cs)
  receives :
      {log : List Bytes} (before after : List Client) (c d : Client)
      → Reach log (before ++ (c ∷ after))
      → take_message c ≡ some d
      → Reach log (before ++ (d ∷ after))
  leaves :
      {log : List Bytes} (before after : List Client) (c : Client)
      → Reach log (before ++ (c ∷ after))
      → Reach log (before ++ after)
