-- ===== src/Tunnels/Manager/Lifecycle.antt =====
-- The life of a tunnel's process under the manager's methods (internal/tunnels/manager.go).
use wg_proxy.Common.{
  ℕ, ◌≡◌, refl, ap, ◌∙◌, false, Option, none, some, List, [], ◌∷◌, arith, ==_refl, ◌>>=◌,
}
use wg_proxy.Common.Bytes.{Bytes}
use wg_proxy.Common.Errors.{GoError, ok}
use wg_proxy.Tunnels.{Tunnel, Cells, store, running, error, disconnected}
use wg_proxy.Tunnels.Manager.{
  World, interrupt, kill, get_tunnel, assign, call, reap, close_done, exited, mem_closed,
  start_tunnel,
}
use wg_proxy.Tunnels.Manager.Actions.{
  too_late, stopping, signal, remove_temporary, stop_tunnel, disconnect, disconnect_at,
}

pub store_self : (c : Cells) (p : ℕ) (t : Tunnel) → store c p t p ≡ t
store_self c p t = rw (==_refl p)

pub remove_temporary-cells :
    (path : Bytes) (w : World)
    → ((remove_temporary path w).cells ≡ w.cells) × ((remove_temporary path w).closed ≡ w.closed)
remove_temporary-cells [] w = (refl, refl)
remove_temporary-cells (c ∷ path) w = (refl, refl)

pub close_open :
    (c : ℕ) (w : World)
    → mem_closed c w.closed ≡ false
    → close_done (some c) w ≡ some (record w { closed = c ∷ w.closed })
unfolding close_done
close_open c w h = rw h

pub close_twice :
    (c : ℕ) (w : World) (cs : List ℕ) → w.closed ≡ c ∷ cs → close_done (some c) w ≡ none
unfolding close_done mem_closed
close_twice c w cs h = rw (h, ==_refl c)

signal-too_late :
    (quote : Bytes → Bytes) (p pid c : ℕ) (w : World) (o d : Option ℕ)
    → o ≡ some pid
    → d ≡ some c
    → signal quote too_late p o d w ≡ some (call (kill pid) (call (interrupt pid) w))
signal-too_late quote p pid c w o d eo ed = rw (eo, ed)

pub exited-fields :
    (quote : Bytes → Bytes) (f : Option GoError) (t : Tunnel)
    → ((exited quote f t).done ≡ t.done) × ((exited quote f t).cmd ≡ none)
exited-fields quote f t = ground arith

exited-running :
    (quote : Bytes → Bytes) (f : Option GoError) (t : Tunnel)
    → t.status ≡ running
    → (exited quote f t).status ≡ error
exited-running quote f t e = ground arith

-- The stop of a tunnel whose process outlives the five seconds: it is killed, and nobody waits.
stop_tunnel-too_late :
    (quote : Bytes → Bytes) (p pid c : ℕ) (w : World)
    → (w.cells p).cmd ≡ some pid
    → (w.cells p).done ≡ some c
    → (v : World) × (stop_tunnel quote too_late p w ≡ some v)
      × (v.cells p ≡ stopping (w.cells p))
      × (v.closed ≡ w.closed)
unfolding stop_tunnel
stop_tunnel-too_late quote p pid c w running_as opened =
    let u = call (kill pid) (call (interrupt pid) (assign p (stopping (w.cells p)) w)) in
    let path = (u.cells p).tmp_conf in
    let (same, open_still) = remove_temporary-cells path u in
    (
      remove_temporary path u,
      ap (λ (o : Option World). o >>= λ w'. some (remove_temporary (w'.cells p).tmp_conf w'))
          (signal-too_late quote p pid c _ _ _ running_as opened),
      ap (λ (k : Cells). k p) same ∙ store_self w.cells p (stopping (w.cells p)),
      open_still,
    )

-- A disconnected tunnel whose process outlives the wait of five seconds ends in the status "error":
-- when the killed process has ended, its goroutine finds a status that is not "stopped".
pub disconnect-too_late :
    (quote : Bytes → Bytes) (name : Bytes) (f : Option GoError) (p pid c : ℕ) (w : World)
    → get_tunnel w name ≡ some p
    → (w.cells p).cmd ≡ some pid
    → (w.cells p).done ≡ some c
    → mem_closed c w.closed ≡ false
    → (w1 : World) × (w2 : World) × (disconnect quote too_late name w ≡ some (w1, none))
      × ((w1.cells p).status ≡ disconnected)
      × (reap quote f p w1 ≡ some w2)
      × ((w2.cells p).status ≡ error)
unfolding disconnect disconnect_at reap
disconnect-too_late quote name f p pid c w found running_as opened open_still =
    let (v, ev, cell, closed) = stop_tunnel-too_late quote p pid c w running_as opened in
    let w1 = assign p (record (v.cells p) { status = disconnected }) v in
    let now : w1.cells p ≡ record (v.cells p) { status = disconnected } = store_self v.cells p _ in
    let chan : (w1.cells p).done ≡ some c = rw (now, cell) opened in
    let gone = exited quote f (w1.cells p) in
    let w2 = record (assign p gone w1) { closed = c ∷ w1.closed } in
    let failed : gone.status ≡ error = rw now refl in
    (
      w1,
      w2,
      rw (found, ev),
      rw now refl,
      rw chan (close_open c (assign p gone w1) (rw closed open_still)),
      rw (store_self w1.cells p gone) failed,
    )

-- A tunnel that is started again before the goroutine of its old process has seen that process end:
-- that goroutine closes the new channel and forgets the new process, and when the new process ends
-- its own goroutine closes the channel a second time, which panics.
pub start_tunnel-two_exits :
    (quote : Bytes → Bytes) (conf : Bytes) (f1 f2 : Option GoError) (p pid c now : ℕ) (v : World)
    → mem_closed c v.closed ≡ false
    → (w : World) × (reap quote f1 p (start_tunnel quote (ok conf) (ok pid) c now p v) ≡ some w)
      × ((w.cells p).cmd ≡ none)
      × ((w.cells p).status ≡ error)
      × (reap quote f2 p w ≡ none)
unfolding reap start_tunnel
start_tunnel-two_exits quote conf f1 f2 p pid c now v open_still =
    let w1 = start_tunnel quote (ok conf) (ok pid) c now p v in
    let t = w1.cells p in
    let gone = exited quote f1 t in
    let w = record (assign p gone w1) { closed = c ∷ w1.closed } in
    let cell : w.cells p ≡ gone = store_self w1.cells p gone in
    let started : t.status ≡ running = rw (==_refl p) refl in
    let chan : t.done ≡ some c = rw (==_refl p) refl in
    let fields = exited-fields quote f1 t in
    let kept : gone.done ≡ some c = fields.0 ∙ chan in
    (
      w,
      rw chan (close_open c (assign p gone w1) open_still),
      ap (λ (x : Tunnel). x.cmd) cell ∙ fields.1,
      ap (λ (x : Tunnel). x.status) cell ∙ exited-running quote f1 t started,
      ap (λ (d : Option ℕ). close_done d (assign p (exited quote f2 (w.cells p)) w))
            (ap (λ (x : Tunnel). x.done) cell ∙ kept)
          ∙ close_twice c (assign p (exited quote f2 (w.cells p)) w) w1.closed refl,
    )
