-- ===== src/Dashboard/Totals.antt =====
-- The sums that the dashboard shows (internal/web/dashboard.go) and those of `/api/stats`
-- (internal/handlers/routes.go).
use mathlib.Core.List.{append_assoc, append-nil}
use wg_proxy.Common.{ℕ, ◌<◌, ◌+◌, ◌%◌, ◌^◌, ◌≡◌, refl, sym, ◌∙◌, List, [], ◌∷◌, ◌++◌, map, arith}
use wg_proxy.Common.Bytes.{Bytes}
use wg_proxy.Tunnels.{Tunnel, Cells, add64}
use wg_proxy.Tunnels.Manager.{World}
use wg_proxy.Health.{Checker}
use wg_proxy.Handlers.Listing.{Rendering, total, stats_info}
use wg_proxy.Dashboard.{Sums, tunnel_state, sum_one, sum_loop, collect_state}

-- The numbers without a bound.
abbrev pub sum_of : List ℕ → ℕ
sum_of [] = 0
sum_of (n ∷ ns) = n + sum_of ns

total-sum_of :
    (count : Tunnel → ℕ) (cells : Cells) (sum : ℕ) (ps : List ℕ)
    → sum < 2 ^ 64
    → total count cells sum ps ≡ (sum + sum_of (map (λ p. count (cells p)) ps)) % 2 ^ 64
unfolding total
total-sum_of count cells sum [] h = omega arith
total-sum_of count cells sum (p ∷ ps) h =
    total-sum_of count cells (add64 sum (count (cells p))) ps (omega arith) ∙ omega arith

total-zero :
    (count : Tunnel → ℕ) (cells : Cells) (ps : List ℕ)
    → total count cells 0 ps ≡ sum_of (map (λ p. count (cells p)) ps) % 2 ^ 64
total-zero count cells ps = total-sum_of count cells 0 ps (omega arith) ∙ omega arith

module _ (uptime_text : ℕ → Bytes) where
  -- The loop of the dashboard computes the three totals at once.
  sum_loop-total :
      (cells : Cells) (ps : List ℕ) (s : Sums)
      → ((sum_loop uptime_text cells ps s).bytes_in ≡ total (λ t. t.bytes_in) cells s.bytes_in ps)
        × ((sum_loop uptime_text cells ps s).bytes_out
            ≡ total (λ t. t.bytes_out) cells s.bytes_out ps)
        × ((sum_loop uptime_text cells ps s).conns ≡ total (λ t. t.conn_count) cells s.conns ps)
  unfolding sum_loop total sum_one tunnel_state
  sum_loop-total cells [] s = (refl, refl, refl)
  sum_loop-total cells (p ∷ ps) s =
      sum_loop-total cells ps (sum_one uptime_text (tunnel_state uptime_text (cells p)) s)

  sum_loop-tunnels :
      (cells : Cells) (ps : List ℕ) (s : Sums)
      → (sum_loop uptime_text cells ps s).tunnels
        ≡ s.tunnels ++ map (λ p. tunnel_state uptime_text (cells p)) ps
  unfolding sum_loop sum_one
  sum_loop-tunnels cells [] s = sym (append-nil s.tunnels)
  sum_loop-tunnels cells (p ∷ ps) s =
      sum_loop-tunnels cells ps (sum_one uptime_text (tunnel_state uptime_text (cells p)) s)
      ∙ append_assoc s.tunnels (tunnel_state uptime_text (cells p) ∷ []) _

  -- The dashboard and `/api/stats` report the same totals of bytes and connections for the same
  -- tunnels, which are the sums of the tunnels' counters modulo 2^64, and the dashboard shows the
  -- tunnels in the manager's order, each once.
  pub collect_state-stats_info :
      (r : Rendering) (w : World) (c : Checker)
      → ((collect_state uptime_text w c).sums.bytes_in ≡ (stats_info r w c).total_bytes_in)
        × ((collect_state uptime_text w c).sums.bytes_out ≡ (stats_info r w c).total_bytes_out)
        × ((collect_state uptime_text w c).sums.conns ≡ (stats_info r w c).total_conns)
        × ((stats_info r w c).total_bytes_in
            ≡ sum_of (map (λ p. (w.cells p).bytes_in) w.tunnels) % 2 ^ 64)
        × ((stats_info r w c).total_bytes_out
            ≡ sum_of (map (λ p. (w.cells p).bytes_out) w.tunnels) % 2 ^ 64)
        × ((stats_info r w c).total_conns
            ≡ sum_of (map (λ p. (w.cells p).conn_count) w.tunnels) % 2 ^ 64)
        × ((collect_state uptime_text w c).sums.tunnels
            ≡ map (λ p. tunnel_state uptime_text (w.cells p)) w.tunnels)
  unfolding collect_state stats_info
  collect_state-stats_info r w c =
      let (i, o, n) = sum_loop-total w.cells w.tunnels _ in
      (
        i,
        o,
        n,
        total-zero (λ t. t.bytes_in) w.cells w.tunnels,
        total-zero (λ t. t.bytes_out) w.cells w.tunnels,
        total-zero (λ t. t.conn_count) w.cells w.tunnels,
        sum_loop-tunnels w.cells w.tunnels _,
      )
