-- ===== src/Health.antt =====
-- The health checker (internal/health/checker.go): `checkAll` and `deepCheckAll`, run while nothing
-- else writes to the tunnels. `dial` is what `checkTunnel` meets on a port: the time that the
-- connection took, or the error of `net.DialTimeout`; `https` is `httpsProbe`. A Go duration or
-- counter is its 64-bit pattern.
pub mod Rounds
pub mod Gold
pub mod ExitIp
pub mod Lifecycle
pub mod Loop
pub mod Report
use wg_proxy.Common.{
  ℕ, ◌+◌, ◌-◌, ◌/◌, ◌%◌, ◌^◌, Bool, true, false, not, ◌&&◌, Option, none, some, List, [], ◌∷◌, ◌++◌,
  ◌==◌, ltb, map, if◌then◌else◌, keep, length,
}
use wg_proxy.Common.Bytes.{Bytes, codes, is_empty}
use wg_proxy.Common.Errors.{wrapping, error_string, Result, ok, err}
use wg_proxy.Tunnels.{
  Tunnel, Status, stopped, running, unhealthy, error, disconnected, is_healthy, Cells, store, add64,
}
use wg_proxy.Tunnels.Manager.{World}

-- `Stats`
pub record Stats : Type 0 where
  pub total_checks : ℕ
  pub healthy_count : ℕ
  pub total_count : ℕ
  pub avg_latency : ℕ
  pub last_check_time : Option ℕ

-- `Checker`, with the goroutines that it has spawned: the tunnels of `resolveExitIP`, and how often
-- `deepCheckAll`.
pub record Checker : Type 0 where
  pub stats : Stats
  pub gold_ports : List ℕ
  pub resolving : List ℕ
  pub deep_checks : ℕ

-- `NewChecker`
unfoldable pub new_checker : Checker
new_checker = record {
  stats = record {
    total_checks = 0;
    healthy_count = 0;
    total_count = 0;
    avg_latency = 0;
    last_check_time = none;
  };
  gold_ports = [];
  resolving = [];
  deep_checks = 0;
}

-- The negation of the test on which the loop goes on to the next tunnel.
abbrev pub is_checked : Status → Bool
is_checked stopped = false
is_checked error = false
is_checked disconnected = false
is_checked _ = true

-- `checkTunnel`
abbrev pub check_tunnel : (ℕ → Result ℕ) → Tunnel → Result ℕ
check_tunnel dial t = elim (dial t.proxy_port) [
  | ok latency ↦ ok latency
  | err e ↦ err (wrapping (codes "tcp connect failed") e)
]

-- The critical section behind a check.
abbrev pub checked : (Bytes → Bytes) → ℕ → Result ℕ → Tunnel → Tunnel
checked quote now (ok latency) t = record t {
  last_check = some now;
  status = running;
  error_text = [];
  latency = latency;
}
checked quote now (err e) t = record t {
  last_check = some now;
  status = unhealthy;
  error_text = error_string quote e;
  latency = 0;
}

-- The variables of the loop, and the tunnels.
pub record Round : Type 0 where
  pub cells : Cells
  pub healthy_count : ℕ
  pub total_latency : ℕ
  pub resolving : List ℕ

-- `a / b` of an int64 by a positive one: Go rounds to zero.
abbrev pub quotient : ℕ → ℕ → ℕ
quotient a b = if ltb a (2 ^ 63) then a / b else (2 ^ 64 - (2 ^ 64 - a) / b) % 2 ^ 64

-- `c.stats.TotalChecks%5 == 1`
abbrev pub is_deep : ℕ → Bool
is_deep n = ltb n (2 ^ 63) && n % 5 == 1

-- `clock` is the time at which the tunnel in a cell is written.
module _ (quote : Bytes → Bytes) (dial : ℕ → Result ℕ) (clock : ℕ → ℕ) where
  abbrev pub after_check : ℕ → Result ℕ → Round → Round
  after_check p (err e) r = record r {
    cells = store r.cells p (checked quote (clock p) (err e) (r.cells p));
  }
  after_check p (ok latency) r = record r {
    cells = store r.cells p (checked quote (clock p) (ok latency) (r.cells p));
    healthy_count = add64 r.healthy_count 1;
    total_latency = add64 r.total_latency latency;
    resolving = if is_empty (r.cells p).exit_ip then r.resolving ++ (p ∷ []) else r.resolving;
  }

  -- One round of the loop.
  unfoldable pub check_one : ℕ → Round → Round
  check_one p r =
      if not (is_checked (r.cells p).status)
      then r
      else after_check p (check_tunnel dial (r.cells p)) r

  unfoldable pub check_loop : List ℕ → Round → Round
  unfolding check_one
  check_loop [] r = r
  check_loop (p ∷ ps) r = check_loop ps (check_one p r)

  abbrev pub first_round : World → Checker → Round
  first_round w c = record {
    cells = w.cells;
    healthy_count = 0;
    total_latency = 0;
    resolving = c.resolving;
  }

  -- The sections behind the loop: the statistics, and every fifth round a deep check.
  abbrev pub finish : ℕ → ℕ → Round → Checker → Checker
  finish now total r c =
      let checks = add64 c.stats.total_checks 1 in
      record c {
        stats = record {
          total_checks = checks;
          healthy_count = r.healthy_count;
          total_count = total;
          avg_latency =
              if r.healthy_count == 0 then 0 else quotient r.total_latency r.healthy_count;
          last_check_time = some now;
        };
        resolving = r.resolving;
        deep_checks = if is_deep checks then c.deep_checks + 1 else c.deep_checks;
      }

  -- `checkAll`, which ends at the time `now`
  unfoldable pub check_all : ℕ → World → Checker → World × Checker
  unfolding check_loop
  check_all now w c =
      let r = check_loop w.tunnels (first_round w c) in
      (record w { cells = r.cells }, finish now (length w.tunnels) r c)

-- The ports that `deepCheckAll` probes.
abbrev pub running_ports : World → List ℕ
running_ports w = map (λ p. (w.cells p).proxy_port) (keep (λ p. is_healthy (w.cells p)) w.tunnels)

-- `deepCheckAll`: the probes run at the same time and append the ports that pass in the order
-- `arrange` in which they end.
unfoldable pub deep_check_all : (ℕ → Bool) → (List ℕ → List ℕ) → World → Checker → Checker
deep_check_all https arrange w c = record c { gold_ports = arrange (keep https (running_ports w)) }
