-- ===== src/System/Traffic.antt =====
-- The counters of the tunnels under any interleaving (internal/proxy/server.go,
-- internal/tunnels/manager.go, internal/health/checker.go).
use mathlib.Core.Path.{subst}
use wg_proxy.Common.{
  ℕ, ◌+◌, ◌%◌, ◌^◌, ◌<◌, ◌≡◌, refl, sym, ap, inl, inr, Option, none, some, List, ◌==◌,
  if◌then◌else◌, Bool-cases, ==_iff, arith,
}
use wg_proxy.Common.Bytes.{Bytes}
use wg_proxy.Common.Errors.{GoError, Result, ok, err}
use wg_proxy.Tunnels.{Tunnel}
use wg_proxy.Tunnels.Manager.{Host, World, close_done, exited, call, interrupt, kill, remove_file}
use wg_proxy.Tunnels.Manager.Actions.{stopping, remove_temporary, remove_named}
use wg_proxy.Tunnels.Manager.Lifecycle.{remove_temporary-cells}
use wg_proxy.Health.{checked}
use wg_proxy.System.{
  Thread, beginning, unconfigured, prepared, unstarted, launched, cut, count_conn, count_in,
  count_out, change, Runs, begins, config_fails, config_is_written, start_fails, process_starts,
  process_ends, closes, stops, has_no_process, interrupts, has_no_channel, sees_close, times_out,
  cleans, has_stopped, starts_again, disconnects, keeps_file, removes_file, forgets, is_probed,
  finds_no_ip, finds_ip, counts, has_sent, has_received, System, runs, arrives, Steps, here, next,
}
use wg_proxy.Health.ExitIp.{resolved}
use wg_proxy.System.Stability.{Arrives-Extends, Steps-IsStable}

-- Numbers of connections and of bytes.
pub record Account : Type 0 where
  pub conns : ℕ
  pub inward : ℕ
  pub outward : ℕ

abbrev pub nothing : Account
nothing = record { conns = 0; inward = 0; outward = 0 }

abbrev pub plus : Account → Account → Account
plus a b = record {
  conns = a.conns + b.conns;
  inward = a.inward + b.inward;
  outward = a.outward + b.outward;
}

-- The counters of a tunnel.
abbrev pub counters : Tunnel → Account
counters t = record { conns = t.conn_count; inward = t.bytes_in; outward = t.bytes_out }

-- Equal as 64-bit patterns.
abbrev pub Same64 : Account → Account → Type 0
Same64 a b =
    (a.conns % 2 ^ 64 ≡ b.conns % 2 ^ 64)
    × (a.inward % 2 ^ 64 ≡ b.inward % 2 ^ 64)
    × (a.outward % 2 ^ 64 ≡ b.outward % 2 ^ 64)

-- What the tunnel `q` gets if it is `p`.
abbrev for_one : ℕ → ℕ → Account → Account
for_one q p a = if q == p then a else nothing

for_one-nothing : (q p : ℕ) → for_one q p nothing ≡ nothing
for_one-nothing q p = ground arith

Same64-trans :
    (a b c x y : Account) → Same64 b (plus a x) → Same64 c (plus b y) → Same64 c (plus a (plus x y))
Same64-trans a b c x y (h0, h1, h2) (k0, k1, k2) = (omega arith, omega arith, omega arith)

Same64-eq : (a b : Account) → a ≡ b → Same64 a (plus b nothing)
Same64-eq a b e = (
  omega (arith, ap (λ (x : Account). x.conns) e),
  omega (arith, ap (λ (x : Account). x.inward) e),
  omega (arith, ap (λ (x : Account). x.outward) e),
)

-- A section that adds `a` to the counters of `p`, and to no other.
change-counters :
    (f : Tunnel → Tunnel) (a : Account) (p q : ℕ) (w : World)
    → Same64 (counters (f (w.cells p))) (plus (counters (w.cells p)) a)
    → Same64 (counters ((change f p w).cells q)) (plus (counters (w.cells q)) (for_one q p a))
change-counters f a p q w h = elim (Bool-cases (q == p)) [
  | inl e ↦
      let same : p ≡ q = sym ((==_iff q p).0 e) in
      rw e (
        subst (λ (x : ℕ). Same64 (counters (f (w.cells p))) (plus (counters (w.cells x)) a)) same h)
  | inr e ↦ rw e (omega arith, omega arith, omega arith)
]

module _ (quote : Bytes → Bytes) where
  -- What one step adds to the counters of the tunnel `q`.
  abbrev pub step_account :
      ℕ → {w v : World} {t : Thread} {ts : List Thread} → Runs quote w t v ts → Account
  step_account q (counts p w) = for_one q p record { conns = 1; inward = 0; outward = 0 }
  step_account q (has_sent n p w) = for_one q p record { conns = 0; inward = 0; outward = n }
  step_account q (has_received n p w) = for_one q p record { conns = 0; inward = n; outward = 0 }
  step_account q _ = nothing

  -- What the steps of a run add.
  abbrev pub account : ℕ → {h : Host} {s t : System quote} → Steps quote h s t → Account
  account q here = nothing
  account q (next r (runs before after t ts w v x)) = plus (account q r) (step_account q x)
  account q (next r (arrives us ts w v a)) = account q r

  -- The counters of `q` in `v` are those in `w`, with `a` added.
  abbrev Adds : World → World → ℕ → Account → Type 0
  Adds w v q a = Same64 (counters (v.cells q)) (plus (counters (w.cells q)) a)

  kept : (w v : World) (q : ℕ) → v.cells q ≡ w.cells q → Adds w v q nothing
  kept w v q e = rw e (omega arith, omega arith, omega arith)

  -- A section that leaves the counters alone.
  change-kept :
      (f : Tunnel → Tunnel) (p q : ℕ) (w : World)
      → counters (f (w.cells p)) ≡ counters (w.cells p)
      → Adds w (change f p w) q nothing
  change-kept f p q w e =
      let h = change-counters f nothing p q w (Same64-eq _ _ e) in
      subst (Adds w (change f p w) q) (for_one-nothing q p) h

  exited-counters : (f : Option GoError) (t : Tunnel) → counters (exited quote f t) ≡ counters t
  exited-counters f t = ground arith

  checked-counters :
      (now : ℕ) (r : Result ℕ) (t : Tunnel) → counters (checked quote now r t) ≡ counters t
  checked-counters now (ok latency) t = refl
  checked-counters now (err e) t = refl

  close_done-cells : (d : Option ℕ) (w v : World) → close_done d w ≡ some v → v.cells ≡ w.cells
  unfolding close_done
  close_done-cells none w v e = cc
  close_done-cells (some c) w v e = ground arith

  Runs-Adds :
      {w v : World} {t : Thread} {ts : List Thread} (q : ℕ) (r : Runs quote w t v ts)
      → Adds w v q (step_account q r)
  Runs-Adds q (begins p w) = change-kept beginning p q w refl
  Runs-Adds q (config_fails e p w) = change-kept (unconfigured quote e) p q w refl
  Runs-Adds q (config_is_written conf c p w o) = change-kept (prepared conf c) p q w refl
  Runs-Adds q (start_fails e p w) = change-kept (unstarted quote e) p q w refl
  Runs-Adds q (process_starts pid now p w) = change-kept (launched pid now) p q w refl
  Runs-Adds q (process_ends f p w) =
      change-kept (exited quote f) p q w (exited-counters f (w.cells p))
  Runs-Adds q (closes p w v e) =
      kept w v q (ap (λ (c : ℕ → Tunnel). c q) (close_done-cells (w.cells p).done w v e))
  Runs-Adds q (stops p k w) = change-kept stopping p q w refl
  Runs-Adds q (has_no_process p c k w) = kept w w q refl
  Runs-Adds q (interrupts p pid c k w) = kept w (call (interrupt pid) w) q refl
  Runs-Adds q (has_no_channel p pid k w) = kept w w q refl
  Runs-Adds q (sees_close p pid c k w e) = kept w w q refl
  Runs-Adds q (times_out p pid c k w) = kept w (call (kill pid) w) q refl
  Runs-Adds q (cleans p k w) =
      kept w (remove_temporary (w.cells p).tmp_conf w) q
        (ap (λ (c : ℕ → Tunnel). c q) (remove_temporary-cells (w.cells p).tmp_conf w).0)
  Runs-Adds q (has_stopped p w) = kept w w q refl
  Runs-Adds q (starts_again p w) = kept w w q refl
  Runs-Adds q (disconnects p w) = change-kept cut p q w refl
  Runs-Adds q (keeps_file p name w) = kept w (call (remove_file (w.cells p).config_path) w) q refl
  Runs-Adds q (removes_file p name w) = kept w (call (remove_file (w.cells p).config_path) w) q refl
  Runs-Adds q (forgets name w) =
      kept w (record w { tunnels = remove_named w.cells name w.tunnels }) q refl
  Runs-Adds q (is_probed p now r w) =
      change-kept (checked quote now r) p q w (checked-counters now r (w.cells p))
  Runs-Adds q (finds_no_ip p w) = kept w w q refl
  Runs-Adds q (finds_ip ip p w) = change-kept (resolved ip) p q w refl
  Runs-Adds q (counts p w) =
      change-counters count_conn _ p q w (omega arith, omega arith, omega arith)
  Runs-Adds q (has_sent n p w) =
      change-counters (count_out n) _ p q w (omega arith, omega arith, omega arith)
  Runs-Adds q (has_received n p w) =
      change-counters (count_in n) _ p q w (omega arith, omega arith, omega arith)

  -- Whatever the goroutines do in between (checks, restarts, disconnections, a deletion): the
  -- counters of a tunnel that was allocated grow by exactly the connections that were served
  -- through it and the bytes that were relayed for them, modulo 2^64.
  pub Steps-counters :
      {h : Host} {s t : System quote} (q : ℕ) (r : Steps quote h s t)
      → q < s.world.fresh
      → Same64 (counters (t.world.cells q)) (plus (counters (s.world.cells q)) (account q r))
  Steps-counters {s = s} q here l = kept s.world s.world q refl
  Steps-counters {s = s} q (next {t = t} r (runs before after x ts w v e)) l =
      Same64-trans (counters (s.world.cells q)) (counters (w.cells q)) (counters (v.cells q))
        (account q r) (step_account q e) (Steps-counters q r l) (Runs-Adds q e)
  Steps-counters {s = s} q (next {t = t} r (arrives us ts w v a)) l =
      rw ((Arrives-Extends quote a).cells q (omega (arith, (Steps-IsStable quote r).fresh)))
        (Steps-counters q r l)
