-- ===== src/Tunnels.antt =====
-- The package tunnels (internal/tunnels/manager.go): a tunnel, its status, and the memory that
-- holds the tunnels. The program shares tunnels by pointers (`[]*Tunnel` in the manager and in the
-- country pickers): a pointer is a number, and `Cells` says what it points to. Texts are bytes.
pub mod Manager
use wg_proxy.Common.{ℕ, ◌+◌, ◌%◌, ◌^◌, Bool, true, false, Option, ◌==◌, if◌then◌else◌}
use wg_proxy.Common.Bytes.{Bytes, codes}

-- `TunnelStatus`
pub data Status : Type 0 where
  stopped starting running unhealthy error disconnected : Status

-- `TunnelStatus.String`
unfoldable pub status_text : Status → Bytes
status_text stopped = codes "stopped"
status_text starting = codes "starting"
status_text running = codes "healthy"
status_text unhealthy = codes "unhealthy"
status_text error = codes "error"
status_text disconnected = codes "disconnected"

-- Addition of an `atomic.Int64`, or of a Go `int`, on its 64-bit pattern.
abbrev pub add64 : ℕ → ℕ → ℕ
add64 a b = (a + b) % 2 ^ 64

-- `Tunnel`, less its mutex. `cmd` is the process id of `t.cmd`, `done` the identity of the channel
-- `t.done`, and a time is `none` if it is zero.
pub record Tunnel : Type 0 where
  pub name : Bytes
  pub config_path : Bytes
  pub proxy_port : ℕ
  pub status : Status
  pub latency : ℕ
  pub last_check : Option ℕ
  pub started_at : Option ℕ
  pub error_text : Bytes
  pub country : Bytes
  pub exit_ip : Bytes
  pub bytes_in : ℕ
  pub bytes_out : ℕ
  pub conn_count : ℕ
  pub cmd : Option ℕ
  pub tmp_conf : Bytes
  pub done : Option ℕ

abbrev pub is_running : Status → Bool
is_running running = true
is_running _ = false

-- `Tunnel.IsHealthy`
abbrev pub is_healthy : Tunnel → Bool
is_healthy t = is_running t.status

abbrev pub Cells : Type 0
Cells = ℕ → Tunnel

-- An assignment through the pointer `p`.
abbrev pub store : Cells → ℕ → Tunnel → Cells
store cells p t q = if q == p then t else cells q
