-- ===== src/Tunnels/Manager/Actions.antt =====
-- The manager's methods on running tunnels (internal/tunnels/manager.go): `stopTunnel`, `StartAll`,
-- `StopAll`, `Restart`, `Disconnect`, `Delete` and `ImportConfig`. `none` is a panic.
use wg_proxy.Common.{ℕ, Option, none, some, List, [], ◌∷◌, ◌++◌, if◌then◌else◌, ◌>>=◌}
use wg_proxy.Common.Bytes.{Bytes, codes, bytes_eq, is_empty}
use wg_proxy.Common.Errors.{GoError, quoting, wrapping}
use wg_proxy.Tunnels.{Tunnel, stopped, disconnected, Cells}
use wg_proxy.Tunnels.Manager.{
  Host, World, write_file, remove_file, interrupt, kill, assign, call, spawn, append_tunnel,
  get_tunnel, reap,
}

-- How a process meets the interrupt: it ends within five seconds, with what `cmd.Wait` returns, or
-- it does not.
pub data Exit : Type 0 where
  in_time : Option GoError → Exit
  too_late : Exit

abbrev pub stopping : Tunnel → Tunnel
stopping t = record t { status = stopped; error_text = [] }

-- The `select` on `done` and the timer, with the wait goroutine's part where the process ends.
abbrev pub await_exit : (Bytes → Bytes) → Exit → ℕ → ℕ → Option ℕ → World → Option World
await_exit quote exit pid p none w = some w
await_exit quote (in_time failure) pid p (some channel) w = reap quote failure p w
await_exit quote too_late pid p (some channel) w = some (call (kill pid) w)

abbrev pub signal : (Bytes → Bytes) → Exit → ℕ → Option ℕ → Option ℕ → World → Option World
signal quote exit p none channel w = some w
signal quote exit p (some pid) channel w =
    await_exit quote exit pid p channel (call (interrupt pid) w)

abbrev pub remove_temporary : Bytes → World → World
remove_temporary path w = if is_empty path then w else call (remove_file path) w

-- `stopTunnel`
unfoldable pub stop_tunnel : (Bytes → Bytes) → Exit → ℕ → World → Option World
stop_tunnel quote exit p w = do
  let t = w.cells p
  w' ← signal quote exit p t.cmd t.done (assign p (stopping t) w)
  some (remove_temporary (w'.cells p).tmp_conf w')

-- `StopAll`, with the exit of each tunnel's process
unfoldable pub stop_all : (Bytes → Bytes) → (ℕ → Exit) → List ℕ → World → Option World
unfolding stop_tunnel
stop_all quote exits [] w = some w
stop_all quote exits (p ∷ ps) w = do
  w' ← stop_tunnel quote (exits p) p w
  stop_all quote exits ps w'

-- `StartAll`
unfoldable pub start_all : World → World
start_all w = record w { spawned = w.spawned ++ w.tunnels }

abbrev pub not_found : Bytes → GoError
not_found name = quoting (codes "tunnel ") name (codes " not found")

abbrev pub Outcome : Type 0
Outcome = Option (World × Option GoError)

-- What `os.Remove` of the configuration file does.
pub data Removal : Type 0 where
  removed missing : Removal
  refused : GoError → Removal

-- `append(m.tunnels[:i], m.tunnels[i+1:]...)` at the first tunnel of that name
unfoldable pub remove_named : Cells → Bytes → List ℕ → List ℕ
remove_named cells name [] = []
remove_named cells name (p ∷ ps) =
    if bytes_eq (cells p).name name then ps else p ∷ remove_named cells name ps

module _ (quote : Bytes → Bytes) where
  unfoldable pub restart_at : Exit → Bytes → Option ℕ → World → Outcome
  unfolding stop_tunnel
  restart_at exit name none w = some (w, some (not_found name))
  restart_at exit name (some p) w = do w' ← stop_tunnel quote exit p w; some (spawn p w', none)

  -- `Restart`
  unfoldable pub restart : Exit → Bytes → World → Outcome
  unfolding restart_at
  restart exit name w = restart_at exit name (get_tunnel w name) w

  unfoldable pub disconnect_at : Exit → Bytes → Option ℕ → World → Outcome
  unfolding stop_tunnel
  disconnect_at exit name none w = some (w, some (not_found name))
  disconnect_at exit name (some p) w = do
    w' ← stop_tunnel quote exit p w
    some (assign p (record (w'.cells p) { status = disconnected }) w', none)

  -- `Disconnect`
  unfoldable pub disconnect : Exit → Bytes → World → Outcome
  unfolding disconnect_at
  disconnect exit name w = disconnect_at exit name (get_tunnel w name) w

  abbrev pub forget : Bytes → World → World
  forget name w = record w { tunnels = remove_named w.cells name w.tunnels }

  abbrev pub after_removal : Bytes → ℕ → Removal → World → World × Option GoError
  after_removal name p (refused e) w = (w, some (wrapping (codes "removing config file") e))
  after_removal name p _ w = (forget name w, none)

  unfoldable pub delete_at : Exit → Removal → Bytes → Option ℕ → World → Outcome
  unfolding stop_tunnel
  delete_at exit result name none w = some (w, some (not_found name))
  delete_at exit result name (some p) w = do
    w' ← stop_tunnel quote exit p w
    some (after_removal name p result (call (remove_file (w'.cells p).config_path) w'))

  -- `Delete`
  unfoldable pub delete : Exit → Removal → Bytes → World → Outcome
  unfolding delete_at
  delete exit result name w = delete_at exit result name (get_tunnel w name) w

-- `ImportConfig`, given the error of `os.WriteFile`
unfoldable pub import_config :
    Host → Option GoError → Bytes → Bytes → World → World × Option GoError
unfolding append_tunnel
import_config h (some e) name content w = (
  call (write_file (h.join w.config_dir (name ++ codes ".conf")) content) w,
  some (wrapping (codes "writing config file") e),
)
import_config h none name content w =
    let path = h.join w.config_dir (name ++ codes ".conf") in
    (spawn w.fresh (append_tunnel h name path (call (write_file path content) w)), none)
