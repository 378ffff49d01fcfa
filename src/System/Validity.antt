-- ===== src/System/Validity.antt =====
-- What no interleaving of the goroutines breaks (internal/tunnels/manager.go,
-- internal/health/checker.go).
use mathlib.Core.Path.{subst}
use wg_proxy.Common.{◌⊎◌, inl, inr, ℕ, ◌<◌, ◌≤◌, ◌≡◌, refl, sym, none, some, List, [], get_elem?}
use wg_proxy.Common.Bytes.{Bytes}
use wg_proxy.Common.Errors.{Result, ok, err}
use wg_proxy.Tunnels.{Tunnel, Cells}
use wg_proxy.Tunnels.Manager.{Host, World, new_manager, exited}
use wg_proxy.Tunnels.Manager.Stopping.{
  Keeps, Keeps-refl, assign-Keeps, call-Keeps, close_done-Keeps, exited-name,
  remove_temporary-Keeps,
}
use wg_proxy.Tunnels.Manager.Validity.{
  IsValid, IsValid-ports, new_manager-IsValid, load_configs-IsValid, import_config-IsValid,
  Ascending-remove_named,
}
use wg_proxy.Tunnels.Manager.Actions.{remove_named}
use wg_proxy.Tunnels.Manager.Outcomes.{IsValid-Keeps}
use wg_proxy.Health.{checked}
use wg_proxy.System.{
  Thread, Runs, begins, config_fails, config_is_written, start_fails, process_starts, process_ends,
  closes, stops, has_no_process, interrupts, has_no_channel, sees_close, times_out, cleans,
  has_stopped, starts_again, disconnects, keeps_file, removes_file, forgets, is_probed, finds_no_ip,
  finds_ip, counts, has_sent, has_received, Arrives, loads, starts_all, stops_one, restarts,
  is_disconnected, is_deleted, imports, checks, is_picked, System, Step, runs, arrives, Steps, here,
  next,
}

checked-same :
    (quote : Bytes → Bytes) (now : ℕ) (r : Result ℕ) (t : Tunnel)
    → ((checked quote now r t).name ≡ t.name) × ((checked quote now r t).proxy_port ≡ t.proxy_port)
checked-same quote now (ok latency) t = (refl, refl)
checked-same quote now (err e) t = (refl, refl)

module _ (quote : Bytes → Bytes) where
  -- A step changes no name, no port and no list, but that a tunnel may be taken from the list.
  pub Runs-cases :
      {w v : World} {t : Thread} {ts : List Thread}
      → Runs quote w t v ts
      → Keeps w v
        ⊎ ((name : Bytes) × (v ≡ record w { tunnels = remove_named w.cells name w.tunnels }))
  Runs-cases (begins p w) = inl (assign-Keeps p _ w refl refl)
  Runs-cases (config_fails e p w) = inl (assign-Keeps p _ w refl refl)
  Runs-cases (config_is_written conf c p w o) = inl (assign-Keeps p _ w refl refl)
  Runs-cases (start_fails e p w) = inl (assign-Keeps p _ w refl refl)
  Runs-cases (process_starts pid now p w) = inl (assign-Keeps p _ w refl refl)
  Runs-cases (process_ends f p w) =
      let (name, port) = exited-name quote f (w.cells p) in
      inl (assign-Keeps p (exited quote f (w.cells p)) w name port)
  Runs-cases (closes p w v e) = inl (close_done-Keeps (w.cells p).done w v e)
  Runs-cases (stops p k w) = inl (assign-Keeps p _ w refl refl)
  Runs-cases (interrupts p pid c k w) = inl (call-Keeps _ w)
  Runs-cases (times_out p pid c k w) = inl (call-Keeps _ w)
  Runs-cases (cleans p k w) = inl (remove_temporary-Keeps (w.cells p).tmp_conf w)
  Runs-cases (disconnects p w) = inl (assign-Keeps p _ w refl refl)
  Runs-cases (forgets name w) = inr (name, refl)
  Runs-cases (is_probed p now r w) =
      let (name, port) = checked-same quote now r (w.cells p) in
      inl (assign-Keeps p (checked quote now r (w.cells p)) w name port)
  Runs-cases (finds_no_ip p w) = inl (Keeps-refl w)
  Runs-cases (finds_ip ip p w) = inl (assign-Keeps p _ w refl refl)
  Runs-cases (counts p w) = inl (assign-Keeps p _ w refl refl)
  Runs-cases (has_sent n p w) = inl (assign-Keeps p _ w refl refl)
  Runs-cases (has_received n p w) = inl (assign-Keeps p _ w refl refl)
  Runs-cases (keeps_file p name w) = inl (call-Keeps _ w)
  Runs-cases (removes_file p name w) = inl (call-Keeps _ w)
  Runs-cases (has_no_process p c k w) = inl (Keeps-refl w)
  Runs-cases (has_no_channel p pid k w) = inl (Keeps-refl w)
  Runs-cases (sees_close p pid c k w e) = inl (Keeps-refl w)
  Runs-cases (has_stopped p w) = inl (Keeps-refl w)
  Runs-cases (starts_again p w) = inl (Keeps-refl w)

  Runs-IsValid :
      {w v : World} {t : Thread} {ts : List Thread} → Runs quote w t v ts → IsValid w → IsValid v
  Runs-IsValid {w = w} {v = v} r valid = elim (Runs-cases r) [
    | inl keeps ↦ IsValid-Keeps w v keeps valid
    | inr (name, e) ↦
        subst IsValid (sym e)
          (Ascending-remove_named w.cells name w.tunnels 0 w.base_port w.fresh w.next_port valid)
  ]

  Arrives-IsValid :
      {h : Host} {w v : World} {ts : List Thread} → Arrives quote h w v ts → IsValid w → IsValid v
  Arrives-IsValid {h = h} (loads r w fits) valid = load_configs-IsValid h r w fits valid
  Arrives-IsValid {h = h} (imports name content w fits) valid =
      import_config-IsValid h none name content w fits valid
  Arrives-IsValid (starts_all w) valid = valid
  Arrives-IsValid (stops_one p w m) valid = valid
  Arrives-IsValid (restarts name p w e) valid = valid
  Arrives-IsValid (is_disconnected name p w e) valid = valid
  Arrives-IsValid (is_deleted name p w e) valid = valid
  Arrives-IsValid (checks p w m e) valid = valid
  Arrives-IsValid (is_picked p w l e) valid = valid

  Step-IsValid :
      {h : Host} {s t : System quote} → Step quote h s t → IsValid s.world → IsValid t.world
  Step-IsValid (runs before after t ts w v r) valid = Runs-IsValid r valid
  Step-IsValid (arrives us ts w v a) valid = Arrives-IsValid a valid

  Steps-IsValid :
      {h : Host} {s t : System quote} → Steps quote h s t → IsValid s.world → IsValid t.world
  Steps-IsValid here valid = valid
  Steps-IsValid (next r e) valid = Step-IsValid e (Steps-IsValid r valid)

  -- A new manager without goroutines.
  abbrev pub initial : Bytes → ℕ → Cells → System quote
  initial dir port cells = record { world = new_manager dir port cells; threads = [] }

  -- However the goroutines of a new manager interleave, and whatever is asked of it while the ports
  -- for its tunnels fit into 64 bits: in every state that is reached the later of two listed
  -- tunnels has a larger port, and the earlier no port below the base port.
  pub Steps-ports :
      (h : Host) (dir : Bytes) (port : ℕ) (cells : Cells) (s : System quote) (i j a b : ℕ)
      → Steps quote h (initial dir port cells) s
      → i < j
      → get_elem? s.world.tunnels i ≡ some a
      → get_elem? s.world.tunnels j ≡ some b
      → (s.world.base_port ≤ (s.world.cells a).proxy_port)
        × ((s.world.cells a).proxy_port < (s.world.cells b).proxy_port)
  Steps-ports h dir port cells s i j a b r lt ea eb =
      let valid = Steps-IsValid r (new_manager-IsValid dir port cells) in
      let (below, from_base, later) = IsValid-ports s.world i j a b valid lt ea eb in
      (from_base, later)
