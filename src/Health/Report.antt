-- ===== src/Health/Report.antt =====
-- What the health checker reports (internal/health/checker.go): `GetTunnelHealth`, `GetStats` and
-- `GetGoldPorts`.
use wg_proxy.Common.{ℕ, List}
use wg_proxy.Common.Bytes.{Bytes}
use wg_proxy.Tunnels.{Tunnel, status_text}
use wg_proxy.Health.{Stats, Checker}

-- `TunnelHealth`
pub record TunnelHealth : Type 0 where
  pub name : Bytes
  pub status : Bytes
  pub latency : ℕ
  pub bytes_in : ℕ
  pub bytes_out : ℕ
  pub total_conns : ℕ
  pub exit_ip : Bytes

-- `GetTunnelHealth`
abbrev pub get_tunnel_health : Tunnel → TunnelHealth
get_tunnel_health t = record {
  name = t.name;
  status = status_text t.status;
  latency = t.latency;
  bytes_in = t.bytes_in;
  bytes_out = t.bytes_out;
  total_conns = t.conn_count;
  exit_ip = t.exit_ip;
}

-- `GetStats`
abbrev pub get_stats : Checker → Stats
get_stats c = c.stats

-- `GetGoldPorts`: a copy of the pool
abbrev pub get_gold_ports : Checker → List ℕ
get_gold_ports c = c.gold_ports
