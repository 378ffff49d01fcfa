-- ===== src/System/Restarts.antt =====
-- A restart whose old process outlives the wait (internal/tunnels/manager.go).
use wg_proxy.Common.{ℕ, Option, ◌∷◌}
use wg_proxy.Common.Bytes.{Bytes}
use wg_proxy.Common.Errors.{GoError}
use wg_proxy.Tunnels.Manager.{Host, World, exited, interrupt, kill, call}
use wg_proxy.Tunnels.Manager.Actions.{stopping, remove_temporary}
use wg_proxy.System.{beginning, prepared, launched, change}

module _ (quote : Bytes → Bytes) (h : Host) where
  -- The worlds of a restart of the tunnel `p`: its process `pid` gets no end within five seconds,
  -- the new process is `pid2`, with the channel `c2` and the file `conf`, and both end later.
  module _ (p pid c pid2 c2 now : ℕ) (conf : Bytes) (end1 end2 : Option GoError) (w : World) where
    abbrev killed : World
    killed = call (kill pid) (call (interrupt pid) (change stopping p w))

    abbrev cleaned : World
    cleaned = remove_temporary (killed.cells p).tmp_conf killed

    abbrev configured : World
    configured = change (prepared conf c2) p (change beginning p cleaned)

    abbrev restarted : World
    restarted = change (launched pid2 now) p configured

    abbrev old_ended : World
    old_ended = change (exited quote end1) p restarted

    abbrev closed_once : World
    closed_once = record old_ended { closed = c2 ∷ old_ended.closed }

    abbrev new_ended : World
    new_ended = change (exited quote end2) p closed_once
