-- ===== src/Health/Gold.antt =====
-- The pool of verified ports (internal/health/checker.go).
use mathlib.Core.List.{Memᴰ}
use wg_proxy.Common.{ℕ, ◌≡◌, Bool, true, List, keep, mem-keep}
use wg_proxy.Tunnels.Manager.{World, healthy_backends}
use wg_proxy.Health.{Checker, running_ports, deep_check_all}

-- If the probes end in an order that names only ports which passed, each port of the pool that a
-- deep check leaves has passed its probe and is one of the backends that were healthy.
pub deep_check_all-mem :
    (https : ℕ → Bool) (arrange : List ℕ → List ℕ) (w : World) (k : Checker) (port : ℕ)
    → ((ports : List ℕ) (q : ℕ) → Memᴰ q (arrange ports) → Memᴰ q ports)
    → Memᴰ port (deep_check_all https arrange w k).gold_ports
    → (https port ≡ true) × Memᴰ port (healthy_backends w)
unfolding deep_check_all healthy_backends
deep_check_all-mem https arrange w k port orders m =
    let (listed, passed) =
      mem-keep https (running_ports w) port (orders (keep https (running_ports w)) port m) in
    (passed, listed)
