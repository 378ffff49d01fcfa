-- ===== src/Tests/Data.antt =====
-- Tunnels for the tests: the tunnels 0, 1 and 2 in memory, of which 1 is not healthy.
use wg_proxy.Common.{ℕ, zero, suc, none, some, List, [], ◌∷◌}
use wg_proxy.Common.Bytes.{Bytes, codes}
use wg_proxy.Tunnels.{Tunnel, Status, running, unhealthy, Cells}

abbrev pub tunnel : Bytes → Bytes → ℕ → Status → Tunnel
tunnel name country port status = record {
  name = name;
  config_path = codes "/c/us-1.conf";
  proxy_port = port;
  status = status;
  latency = 0;
  last_check = none;
  started_at = some 1000;
  error_text = [];
  country = country;
  exit_ip = [];
  bytes_in = 7;
  bytes_out = 5;
  conn_count = 1;
  cmd = some 4321;
  tmp_conf = codes "/tmp/wp.conf";
  done = some 9;
}

abbrev pub cells : Cells
cells zero = tunnel (codes "us-1") (codes "US") 10001 running
cells (suc zero) = tunnel (codes "de-1") (codes "DE") 10002 unhealthy
cells (suc (suc n)) = tunnel (codes "de-2") (codes "DE") 10003 running

abbrev pub listed : List ℕ
listed = 0 ∷ 1 ∷ 2 ∷ []
