-- ===== src/System/Races.antt =====
-- What an interleaving of the health checker and the manager may do
-- (internal/health/checker.go, internal/tunnels/manager.go).
use wg_proxy.Common.{
  ℕ, ◌<◌, ◌≡◌, refl, ap, ◌∙◌, true, false, Option, none, some, List, [], ◌∷◌, ◌++◌, ==_refl, inl,
  inr, Bool-cases,
}
use wg_proxy.Common.Bytes.{Bytes, is_empty}
use wg_proxy.Common.Errors.{Result, ok, err}
use wg_proxy.Tunnels.{Tunnel, running, disconnected}
use wg_proxy.Tunnels.Manager.{
  Host, World, get_tunnel, exited, interrupt, call, mem_closed, close_done,
}
use wg_proxy.Tunnels.Manager.Actions.{stopping, remove_temporary}
use wg_proxy.Tunnels.Manager.Lifecycle.{
  store_self, remove_temporary-cells, close_open, exited-fields,
}
use wg_proxy.Health.{checked}
use wg_proxy.System.{
  Purpose, to_disconnect, wait, closing, stop, signal, await, clean, resume, probe, cut, change,
  Runs, process_ends, closes, stops, interrupts, sees_close, cleans, disconnects, is_probed,
  resolve, finds_no_ip, follow_up, is_disconnected, checks, System, arrives, Steps, here, next,
  Goes, stays, goes,
}

module _ (quote : Bytes → Bytes) (h : Host) where
  pub interrupts_at :
      (o : Option ℕ) (p pid : ℕ) (channel : Option ℕ) (k : Purpose) (w : World)
      → o ≡ some pid
      → Runs quote w (signal p o channel k) (call (interrupt pid) w) (await p pid channel k ∷ [])
  interrupts_at o p pid channel k w e = rw e (interrupts p pid channel k w)

  sees_close_at :
      (o : Option ℕ) (p pid c : ℕ) (k : Purpose) (w : World)
      → o ≡ some c
      → mem_closed c w.closed ≡ true
      → Runs quote w (await p pid o k) w (clean p k ∷ [])
  sees_close_at o p pid c k w e m = rw e (sees_close p pid c k w m)

  -- The search for the exit address, if there is one, finds nothing.
  settles :
      (x : Result ℕ) (t : Tunnel) (p : ℕ) (w : World) (s : System quote)
      → Goes quote s record { world = w; threads = follow_up x t p ++ [] }
      → Goes quote s record { world = w; threads = [] }
  settles (err e) t p w s r = r
  settles (ok latency) t p w s r = elim (Bool-cases (is_empty t.exit_ip)) [
    | inl e ↦ goes [] [] (resolve p) [] w w (rw e at r) (finds_no_ip p w)
    | inr e ↦ rw e at r
  ]

  head_closed : (c : ℕ) (cs : List ℕ) → mem_closed c (c ∷ cs) ≡ true
  unfolding mem_closed
  head_closed c cs = rw (==_refl c) refl

  -- The worlds of a disconnection of the tunnel `p`, while a check of it is in flight.
  module _ (p pid c now latency : ℕ) (w : World) where
    abbrev interrupted : World
    interrupted = call (interrupt pid) (change stopping p w)

    abbrev ended : World
    ended = change (exited quote none) p interrupted

    abbrev closed_down : World
    closed_down = record ended { closed = c ∷ ended.closed }

    abbrev cleaned : World
    cleaned = remove_temporary (closed_down.cells p).tmp_conf closed_down

    abbrev probed : World
    probed = change (checked quote now (ok latency)) p (change cut p cleaned)

    ended-cell : ended.cells p ≡ exited quote none (interrupted.cells p)
    ended-cell = store_self interrupted.cells p (exited quote none (interrupted.cells p))

    ended-done : (w.cells p).done ≡ some c → (ended.cells p).done ≡ some c
    ended-done channel =
        ap (λ (x : Tunnel). x.done) ended-cell
        ∙ ((exited-fields quote none (interrupted.cells p)).0
            ∙ (ap (λ (x : Tunnel). x.done) (store_self w.cells p (stopping (w.cells p))) ∙ channel))

    cleaned-cmd : (cleaned.cells p).cmd ≡ none
    cleaned-cmd =
        ap (λ (f : ℕ → Tunnel). (f p).cmd)
          (remove_temporary-cells (closed_down.cells p).tmp_conf closed_down).0
        ∙ (ap (λ (x : Tunnel). x.cmd) ended-cell
            ∙ (exited-fields quote none (interrupted.cells p)).1)

    probed-cell : probed.cells p ≡ checked quote now (ok latency) (cut (cleaned.cells p))
    probed-cell =
        store_self (change cut p cleaned).cells p _
        ∙ ap (checked quote now (ok latency)) (store_self cleaned.cells p (cut (cleaned.cells p)))

    -- The goroutines: the wait, and behind it a check and a disconnection that begin.
    begun :
        (name : Bytes)
        → get_tunnel w name ≡ some p
        → p < w.fresh
        → (w.cells p).status ≡ running
        → Steps quote h
            record { world = w; threads = wait p ∷ [] }
            record { world = w; threads = wait p ∷ probe p ∷ stop p to_disconnect ∷ [] }
    begun name found known up =
        next (next here (arrives (wait p ∷ []) (probe p ∷ []) w w (checks p w known (rw up refl))))
          (arrives (wait p ∷ probe p ∷ []) (stop p to_disconnect ∷ []) w w
            (is_disconnected name p w found))

    -- The process ends at the interrupt, and the disconnection goes on to its end.
    to_disconnected :
        (w.cells p).cmd ≡ some pid
        → (w.cells p).done ≡ some c
        → mem_closed c w.closed ≡ false
        → Goes quote
            record { world = w; threads = wait p ∷ probe p ∷ stop p to_disconnect ∷ [] }
            record { world = change cut p cleaned; threads = probe p ∷ [] }
    to_disconnected process channel open_still =
        let others = probe p ∷ await p pid (w.cells p).done to_disconnect ∷ [] in
        let s1 =
          goes (wait p ∷ probe p ∷ []) [] (stop p to_disconnect) _ w _ stays
            (stops p to_disconnect w) in
        let s2 =
          goes (wait p ∷ probe p ∷ []) [] _ _ (change stopping p w) interrupted s1
            (interrupts_at (w.cells p).cmd p pid (w.cells p).done to_disconnect _ process) in
        let s3 = goes [] others (wait p) _ interrupted ended s2 (process_ends none p interrupted) in
        let s4 = goes [] others (closing p) _ ended closed_down s3 (
          closes p ended closed_down
            (ap (λ d. close_done d ended) (ended-done channel) ∙ close_open c ended open_still)) in
        let s5 =
          goes (probe p ∷ []) [] (await p pid (w.cells p).done to_disconnect) _ closed_down
            closed_down s4
            (sees_close_at (w.cells p).done p pid c to_disconnect closed_down channel
              (head_closed c ended.closed)) in
        let s6 =
          goes (probe p ∷ []) [] (clean p to_disconnect) _ closed_down cleaned s5
            (cleans p to_disconnect closed_down) in
        goes (probe p ∷ []) [] (resume p to_disconnect) _ cleaned _ s6 (disconnects p cleaned)

    -- The check writes the result of its connection.
    to_running :
        Goes quote
          record { world = change cut p cleaned; threads = probe p ∷ [] }
          record { world = probed; threads = [] }
    to_running =
        let last = change cut p cleaned in
        settles (ok latency) (last.cells p) p probed _
          (goes [] [] (probe p) _ last probed stays (is_probed p now (ok latency) last))

  -- Let an allocated tunnel, which its name finds, be running with a process and an open channel,
  -- and let the goroutine that waits for the process be the only one. A check and a `Disconnect` of
  -- the tunnel may begin, and with no further call go on as follows: `Disconnect` comes to its end,
  -- with the status disconnected, while the check is still in flight; then the check ends, and with
  -- no goroutine left the tunnel counts as running, although it has no process.
  pub Steps-disconnected_running :
      (name : Bytes) (p pid c now latency : ℕ) (w : World)
      → get_tunnel w name ≡ some p
      → p < w.fresh
      → (w.cells p).status ≡ running
      → (w.cells p).cmd ≡ some pid
      → (w.cells p).done ≡ some c
      → mem_closed c w.closed ≡ false
      → Steps quote h
          record { world = w; threads = wait p ∷ [] }
          record { world = w; threads = wait p ∷ probe p ∷ stop p to_disconnect ∷ [] }
        × ((u v : World) × Goes quote
              record { world = w; threads = wait p ∷ probe p ∷ stop p to_disconnect ∷ [] }
              record { world = u; threads = probe p ∷ [] }
            × ((u.cells p).status ≡ disconnected)
            × Goes quote
                record { world = u; threads = probe p ∷ [] }
                record { world = v; threads = [] }
            × ((v.cells p).status ≡ running)
            × ((v.cells p).cmd ≡ none))
  Steps-disconnected_running name p pid c now latency w found known up process channel open_still =
      let gone = cleaned p pid c now latency w in
      (
        begun p pid c now latency w name found known up,
        (
          change cut p gone,
          probed p pid c now latency w,
          to_disconnected p pid c now latency w process channel open_still,
          ap (λ (x : Tunnel). x.status) (store_self gone.cells p (cut (gone.cells p))),
          to_running p pid c now latency w,
          ap (λ (x : Tunnel). x.status) (probed-cell p pid c now latency w),
          ap (λ (x : Tunnel). x.cmd) (probed-cell p pid c now latency w)
              ∙ cleaned-cmd p pid c now latency w,
        ),
      )
