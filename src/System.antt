-- ===== src/System.antt =====
-- The goroutines that share the tunnels (internal/tunnels/manager.go, internal/health/checker.go,
-- and the served connections of internal/proxy/server.go). A step is one critical section, one
-- atomic addition, or one call between two of them, of one goroutine; any goroutine may be next.
-- `quote` is the `%q` of the package fmt.
pub mod Validity
pub mod Races
pub mod Restarts
pub mod Stability
pub mod Traffic
use mathlib.Core.List.{Memᴰ}
use wg_proxy.Common.{
  ℕ, ◌+◌, ◌^◌, ◌<◌, ◌≡◌, Bool, true, false, Option, none, some, List, [], ◌∷◌, ◌++◌, map, length,
  if◌then◌else◌,
}
use wg_proxy.Common.Bytes.{Bytes, codes, is_empty}
use wg_proxy.Common.Errors.{GoError, Result, ok, err, error_string}
use wg_proxy.Tunnels.{Tunnel, starting, running, error, disconnected, is_healthy, add64}
use wg_proxy.Tunnels.Manager.{
  Host, World, load_configs, assign, call, interrupt, kill, remove_file, get_tunnel, exited,
  close_done, mem_closed,
}
use wg_proxy.Tunnels.Manager.Actions.{stopping, remove_temporary, remove_named, import_config}
use wg_proxy.Health.{is_checked, checked}
use wg_proxy.Health.ExitIp.{resolved}

-- What follows a `stopTunnel`: nothing in `StopAll`, and the rest of the other methods.
pub data Purpose : Type 0 where
  to_stop to_restart to_disconnect : Purpose
  to_delete : Bytes → Purpose

-- A goroutine, by what it does next with the tunnel of a pointer.
pub data Thread : Type 0 where
  -- `startTunnel` and the wait goroutine
  begin configure execute wait closing : ℕ → Thread
  -- `stopTunnel`, with the process and the channel that it has read
  stop : ℕ → Purpose → Thread
  signal : ℕ → Option ℕ → Option ℕ → Purpose → Thread
  await : ℕ → ℕ → Option ℕ → Purpose → Thread
  clean resume : ℕ → Purpose → Thread
  -- the last section of `Delete`
  forget_name : Bytes → Thread
  -- `checkAll` at a tunnel whose status it has read
  probe : ℕ → Thread
  -- `resolveExitIP`
  resolve : ℕ → Thread
  -- `handleConnection` behind a backend's success, and the two directions of its `relay`
  serve relay_in relay_out : ℕ → Thread

-- The critical sections of `startTunnel`.
abbrev pub beginning : Tunnel → Tunnel
beginning t = record t { status = starting; error_text = [] }

abbrev pub unconfigured : (Bytes → Bytes) → GoError → Tunnel → Tunnel
unconfigured quote e t = record t {
  status = error;
  error_text = codes "config generation failed: " ++ error_string quote e;
}

abbrev pub prepared : Bytes → ℕ → Tunnel → Tunnel
prepared conf channel t = record t { tmp_conf = conf; done = some channel }

abbrev pub unstarted : (Bytes → Bytes) → GoError → Tunnel → Tunnel
unstarted quote e t = record t {
  status = error;
  error_text = codes "failed to start wireproxy: " ++ error_string quote e;
}

abbrev pub launched : ℕ → ℕ → Tunnel → Tunnel
launched pid now t = record t { status = running; started_at = some now; cmd = some pid }

-- The last section of `Disconnect`.
abbrev pub cut : Tunnel → Tunnel
cut t = record t { status = disconnected }

-- `go c.resolveExitIP(t)`, behind the first check that went well.
abbrev pub follow_up : Result ℕ → Tunnel → ℕ → List Thread
follow_up (err e) t p = []
follow_up (ok latency) t p = if is_empty t.exit_ip then resolve p ∷ [] else []

-- The atomic additions of `handleConnection` and of `relay`.
abbrev pub count_conn : Tunnel → Tunnel
count_conn t = record t { conn_count = add64 t.conn_count 1 }

abbrev pub count_in : ℕ → Tunnel → Tunnel
count_in n t = record t { bytes_in = add64 t.bytes_in n }

abbrev pub count_out : ℕ → Tunnel → Tunnel
count_out n t = record t { bytes_out = add64 t.bytes_out n }

-- `w.cells p` after one of the sections.
abbrev pub change : (Tunnel → Tunnel) → ℕ → World → World
change f p w = assign p (f (w.cells p)) w

module _ (quote : Bytes → Bytes) where
  -- A step of one goroutine: the world behind it, and the goroutines that go on.
  pub data Runs : World → Thread → World → List Thread → Type 0 where
    begins : (p : ℕ) (w : World) → Runs w (begin p) (change beginning p w) (configure p ∷ [])
    config_fails :
        (e : GoError) (p : ℕ) (w : World)
        → Runs w (configure p) (change (unconfigured quote e) p w) []
    config_is_written :
        (conf : Bytes) (channel p : ℕ) (w : World)
        → mem_closed channel w.closed ≡ false
        → Runs w (configure p) (change (prepared conf channel) p w) (execute p ∷ [])
    start_fails :
        (e : GoError) (p : ℕ) (w : World) → Runs w (execute p) (change (unstarted quote e) p w) []
    process_starts :
        (pid now p : ℕ) (w : World)
        → Runs w (execute p) (change (launched pid now) p w) (wait p ∷ [])
    process_ends :
        (failure : Option GoError) (p : ℕ) (w : World)
        → Runs w (wait p) (change (exited quote failure) p w) (closing p ∷ [])
    closes :
        (p : ℕ) (w v : World) → close_done (w.cells p).done w ≡ some v → Runs w (closing p) v []
    stops :
        (p : ℕ) (k : Purpose) (w : World)
        → Runs w (stop p k) (change stopping p w) (signal p (w.cells p).cmd (w.cells p).done k ∷ [])
    has_no_process :
        (p : ℕ) (channel : Option ℕ) (k : Purpose) (w : World)
        → Runs w (signal p none channel k) w (clean p k ∷ [])
    interrupts :
        (p pid : ℕ) (channel : Option ℕ) (k : Purpose) (w : World)
        → Runs w
            (signal p (some pid) channel k)
            (call (interrupt pid) w)
            (await p pid channel k ∷ [])
    has_no_channel :
        (p pid : ℕ) (k : Purpose) (w : World) → Runs w (await p pid none k) w (clean p k ∷ [])
    sees_close :
        (p pid channel : ℕ) (k : Purpose) (w : World)
        → mem_closed channel w.closed ≡ true
        → Runs w (await p pid (some channel) k) w (clean p k ∷ [])
    times_out :
        (p pid channel : ℕ) (k : Purpose) (w : World)
        → Runs w (await p pid (some channel) k) (call (kill pid) w) (clean p k ∷ [])
    cleans :
        (p : ℕ) (k : Purpose) (w : World)
        → Runs w (clean p k) (remove_temporary (w.cells p).tmp_conf w) (resume p k ∷ [])
    has_stopped : (p : ℕ) (w : World) → Runs w (resume p to_stop) w []
    starts_again : (p : ℕ) (w : World) → Runs w (resume p to_restart) w (begin p ∷ [])
    disconnects : (p : ℕ) (w : World) → Runs w (resume p to_disconnect) (change cut p w) []
    -- `os.Remove` of the configuration fails, or does not
    keeps_file :
        (p : ℕ) (name : Bytes) (w : World)
        → Runs w (resume p (to_delete name)) (call (remove_file (w.cells p).config_path) w) []
    removes_file :
        (p : ℕ) (name : Bytes) (w : World)
        → Runs w
            (resume p (to_delete name))
            (call (remove_file (w.cells p).config_path) w)
            (forget_name name ∷ [])
    forgets :
        (name : Bytes) (w : World)
        → Runs w (forget_name name) (record w { tunnels = remove_named w.cells name w.tunnels }) []
    is_probed :
        (p now : ℕ) (result : Result ℕ) (w : World)
        → Runs w (probe p) (change (checked quote now result) p w) (follow_up result (w.cells p) p)
    finds_no_ip : (p : ℕ) (w : World) → Runs w (resolve p) w []
    finds_ip : (ip : Bytes) (p : ℕ) (w : World) → Runs w (resolve p) (change (resolved ip) p w) []
    counts :
        (p : ℕ) (w : World)
        → Runs w (serve p) (change count_conn p w) (relay_out p ∷ relay_in p ∷ [])
    has_sent : (n p : ℕ) (w : World) → Runs w (relay_out p) (change (count_out n) p w) []
    has_received : (n p : ℕ) (w : World) → Runs w (relay_in p) (change (count_in n) p w) []

  -- A call of the program or of a handler begins: the world, and the goroutines that are new.
  pub data Arrives (h : Host) : World → World → List Thread → Type 0 where
    loads :
        (r : Result (List (Bytes × Bool))) (w : World)
        → ((es : List (Bytes × Bool)) → r ≡ ok es → w.next_port + length es < 2 ^ 64)
        → Arrives h w (load_configs h r w).0 []
    starts_all : (w : World) → Arrives h w w (map begin w.tunnels)
    stops_one : (p : ℕ) (w : World) → Memᴰ p w.tunnels → Arrives h w w (stop p to_stop ∷ [])
    restarts :
        (name : Bytes) (p : ℕ) (w : World)
        → get_tunnel w name ≡ some p
        → Arrives h w w (stop p to_restart ∷ [])
    is_disconnected :
        (name : Bytes) (p : ℕ) (w : World)
        → get_tunnel w name ≡ some p
        → Arrives h w w (stop p to_disconnect ∷ [])
    is_deleted :
        (name : Bytes) (p : ℕ) (w : World)
        → get_tunnel w name ≡ some p
        → Arrives h w w (stop p (to_delete name) ∷ [])
    imports :
        (name content : Bytes) (w : World)
        → w.next_port + 1 < 2 ^ 64
        → Arrives h w (import_config h none name content w).0 (begin w.fresh ∷ [])
    -- a check of the round, also of a tunnel that was deleted since the round began
    checks :
        (p : ℕ) (w : World)
        → p < w.fresh
        → is_checked (w.cells p).status ≡ true
        → Arrives h w w (probe p ∷ [])
    -- a pick, also by the proxy of a country, which may know a tunnel that is not listed any more
    is_picked :
        (p : ℕ) (w : World)
        → p < w.fresh
        → is_healthy (w.cells p) ≡ true
        → Arrives h w w (serve p ∷ [])

  -- The world and the goroutines.
  pub record System : Type 0 where
    pub world : World
    pub threads : List Thread

  pub data Step (h : Host) : System → System → Type 0 where
    runs :
        (before after : List Thread) (t : Thread) (ts : List Thread) (w v : World)
        → Runs w t v ts
        → Step h
            record { world = w; threads = before ++ (t ∷ after) }
            record { world = v; threads = before ++ (ts ++ after) }
    arrives :
        (us ts : List Thread) (w v : World)
        → Arrives h w v ts
        → Step h record { world = w; threads = us } record { world = v; threads = us ++ ts }

  pub data Steps (h : Host) (s : System) : System → Type 0 where
    here : Steps h s s
    next : {t u : System} → Steps h s t → Step h t u → Steps h s u

  -- The goroutines that are there go on, and no method is called.
  pub data Goes (s : System) : System → Type 0 where
    stays : Goes s s
    goes :
        (before after : List Thread) (t : Thread) (ts : List Thread) (w v : World)
        → Goes s record { world = w; threads = before ++ (t ∷ after) }
        → Runs w t v ts
        → Goes s record { world = v; threads = before ++ (ts ++ after) }
