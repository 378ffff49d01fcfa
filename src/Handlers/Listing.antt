-- ===== src/Handlers/Listing.antt =====
-- The handlers that only read (internal/handlers/routes.go): `handleTunnels`, `handleStats`,
-- `handleCountries` and the list of the verified ports.
use wg_proxy.Common.{
  ℕ, Bool, true, false, not, Option, none, some, List, [], ◌∷◌, map, if◌then◌else◌, length,
}
use wg_proxy.Common.Bytes.{Bytes}
use wg_proxy.Tunnels.{Tunnel, Status, stopped, status_text, Cells, add64}
use wg_proxy.Tunnels.Manager.{World}
use wg_proxy.Health.{Checker}
use wg_proxy.Proxy.Countries.{Countries}
use wg_proxy.Handlers.{
  Method, is_get, TunnelInfo, StatsInfo, Response, tunnel_list, stats, country_ports, gold,
  write_json, not_allowed,
}

-- What the package time prints: a latency to the millisecond, the time since a start to the second,
-- and a time by RFC 3339.
pub record Rendering : Type 0 where
  pub latency_text : ℕ → Bytes
  pub uptime_text : ℕ → Bytes
  pub time_text : Option ℕ → Bytes

abbrev pub is_stopped : Status → Bool
is_stopped stopped = true
is_stopped _ = false

-- A total of the counters of the listed tunnels, which wraps around like Go's int64.
unfoldable pub total : (Tunnel → ℕ) → Cells → ℕ → List ℕ → ℕ
total count cells sum [] = sum
total count cells sum (p ∷ ps) = total count cells (add64 sum (count (cells p))) ps

module _ (r : Rendering) where
  abbrev pub uptime : Status → Option ℕ → Bytes
  uptime s none = []
  uptime s (some t) = if is_stopped s then [] else r.uptime_text t

  unfoldable pub tunnel_info : Tunnel → TunnelInfo
  unfolding status_text
  tunnel_info t = record {
    name = t.name;
    status = status_text t.status;
    port = t.proxy_port;
    latency = r.latency_text t.latency;
    error_text = t.error_text;
    bytes_in = t.bytes_in;
    bytes_out = t.bytes_out;
    conn_count = t.conn_count;
    uptime = uptime t.status t.started_at;
  }

  -- `handleTunnels`
  unfoldable pub handle_tunnels : Method → World → Response
  unfolding tunnel_info
  handle_tunnels m w =
      if not (is_get m)
      then not_allowed
      else write_json 200 (tunnel_list (map (λ p. tunnel_info (w.cells p)) w.tunnels))

  unfoldable pub stats_info : World → Checker → StatsInfo
  unfolding total
  stats_info w c = record {
    total_tunnels = c.stats.total_count;
    healthy_tunnels = c.stats.healthy_count;
    avg_latency = r.latency_text c.stats.avg_latency;
    total_checks = c.stats.total_checks;
    last_check = r.time_text c.stats.last_check_time;
    total_bytes_in = total (λ t. t.bytes_in) w.cells 0 w.tunnels;
    total_bytes_out = total (λ t. t.bytes_out) w.cells 0 w.tunnels;
    total_conns = total (λ t. t.conn_count) w.cells 0 w.tunnels;
  }

  -- `handleStats`
  unfoldable pub handle_stats : Method → World → Checker → Response
  unfolding stats_info
  handle_stats m w c =
      if not (is_get m) then not_allowed else write_json 200 (stats (stats_info w c))

-- `handleCountries`
unfoldable pub handle_countries : Method → Countries → Response
handle_countries m s =
    if not (is_get m) then not_allowed else write_json 200 (country_ports s.mapping)

-- The function at `/api/health/gold`.
unfoldable pub handle_gold : Checker → Response
handle_gold c = write_json 200 (gold c.gold_ports (length c.gold_ports))
