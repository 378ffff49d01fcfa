-- ===== src/Tunnels/Manager.antt =====
-- The manager (internal/tunnels/manager.go). A method is a function on the `World`, which holds the
-- manager's fields, the tunnels in memory, the channels that are closed, the goroutines that were
-- spawned to start a tunnel, and the calls to the operating system in order. What a call returns is
-- an argument. A critical section of a tunnel's mutex is one assignment to its cell.
pub mod Actions
pub mod Stopping
pub mod Validity
pub mod Lookup
pub mod Outcomes
pub mod Lifecycle
use wg_proxy.Common.{
  ℕ, ◌+◌, Bool, false, not, ◌||◌, Option, none, some, List, [], ◌∷◌, ◌++◌, ◌==◌, map, if◌then◌else◌,
  ◌>>=◌, length, keep,
}
use wg_proxy.Common.Bytes.{Bytes, codes, bytes_eq, has_suffix, trim_suffix, decimal}
use wg_proxy.Common.Errors.{GoError, wrapping, Result, ok, err, error_string}
use wg_proxy.Tunnels.{Tunnel, stopped, running, error, is_healthy, Cells, store, add64}

-- What the program takes from the packages path/filepath, strings and fmt: `filepath.Join` of two
-- parts, `strings.ToUpper` and `%q`.
pub record Host : Type 0 where
  pub join : Bytes → Bytes → Bytes
  pub to_upper : Bytes → Bytes
  pub quote : Bytes → Bytes

pub data Call : Type 0 where
  write_file : Bytes → Bytes → Call
  remove_file : Bytes → Call
  interrupt kill : ℕ → Call

pub record World : Type 0 where
  pub tunnels : List ℕ
  pub config_dir : Bytes
  pub base_port : ℕ
  pub next_port : ℕ
  pub cells : Cells
  pub fresh : ℕ  -- pointers from here on are not allocated
  pub closed : List ℕ
  pub spawned : List ℕ  -- `go m.startTunnel(t)`
  pub calls : List Call

-- `NewManager`, in a memory with cells of any content
unfoldable pub new_manager : Bytes → ℕ → Cells → World
new_manager dir port cells = record {
  tunnels = [];
  config_dir = dir;
  base_port = port;
  next_port = port;
  cells = cells;
  fresh = 0;
  closed = [];
  spawned = [];
  calls = [];
}

abbrev pub assign : ℕ → Tunnel → World → World
assign p t w = record w { cells = store w.cells p t }

abbrev pub call : Call → World → World
call c w = record w { calls = w.calls ++ (c ∷ []) }

abbrev pub spawn : ℕ → World → World
spawn p w = record w { spawned = w.spawned ++ (p ∷ []) }

-- `strings.SplitN(name, "-", 2)[0]`
unfoldable pub before_dash : Bytes → Bytes
before_dash [] = []
before_dash (c ∷ s) = if c == b'-' then [] else c ∷ before_dash s

module _ (h : Host) where
  -- `extractCountryFromName`
  unfoldable pub extract_country : Bytes → Bytes
  unfolding before_dash
  extract_country name =
      if length (before_dash name) == 2 then h.to_upper (before_dash name) else []

  -- `&Tunnel{Name: …, ConfigPath: …, ProxyPort: …, Status: StatusStopped, Country: …}`
  abbrev pub new_tunnel : Bytes → Bytes → ℕ → Tunnel
  new_tunnel name path port = record {
    name = name;
    config_path = path;
    proxy_port = port;
    status = stopped;
    latency = 0;
    last_check = none;
    started_at = none;
    error_text = [];
    country = extract_country name;
    exit_ip = [];
    bytes_in = 0;
    bytes_out = 0;
    conn_count = 0;
    cmd = none;
    tmp_conf = [];
    done = none;
  }

  -- The tunnel that `LoadConfigs` and `ImportConfig` append, with `m.nextPort++`.
  unfoldable pub append_tunnel : Bytes → Bytes → World → World
  append_tunnel name path w = record (assign w.fresh (new_tunnel name path w.next_port) w) {
    tunnels = w.tunnels ++ (w.fresh ∷ []);
    next_port = add64 w.next_port 1;
    fresh = w.fresh + 1;
  }

  abbrev conf : Bytes
  conf = codes ".conf"

  -- One round of the loop of `LoadConfigs`.
  unfoldable pub load_entry : World → Bool → Bytes → World
  unfolding append_tunnel
  load_entry w is_dir file =
      if is_dir || not (has_suffix file conf)
      then w
      else append_tunnel (trim_suffix file conf) (h.join w.config_dir file) w

  unfoldable pub load_entries : World → List (Bytes × Bool) → World
  unfolding load_entry
  load_entries w [] = w
  load_entries w ((file, is_dir) ∷ es) = load_entries (load_entry w is_dir file) es

  -- `LoadConfigs`, given what `os.ReadDir` returns
  unfoldable pub load_configs : Result (List (Bytes × Bool)) → World → World × Option GoError
  unfolding load_entries
  load_configs (err e) w = (w, some (wrapping (codes "reading config dir " ++ w.config_dir) e))
  load_configs (ok entries) w = (load_entries w entries, none)

-- `GetTunnel`: the first tunnel of that name.
unfoldable pub find_named : Cells → Bytes → List ℕ → Option ℕ
find_named cells name [] = none
find_named cells name (p ∷ ps) =
    if bytes_eq (cells p).name name then some p else find_named cells name ps

abbrev pub get_tunnel : World → Bytes → Option ℕ
get_tunnel w name = find_named w.cells name w.tunnels

-- `HealthyBackends`
unfoldable pub healthy_backends : World → List ℕ
healthy_backends w =
    map (λ p. (w.cells p).proxy_port) (keep (λ p. is_healthy (w.cells p)) w.tunnels)

-- The wait goroutine's section: a process that ends while its tunnel is not stopped is an error.
abbrev pub exited : (Bytes → Bytes) → Option GoError → Tunnel → Tunnel
exited quote failure t = elim t.status [
  | stopped ↦ record t { cmd = none }
  | _ ↦ record t { status = error; error_text = text failure; cmd = none }
]
  where
    text : Option GoError → Bytes
    text none = codes "process exited unexpectedly"
    text (some e) = codes "process exited: " ++ error_string quote e

unfoldable pub mem_closed : ℕ → List ℕ → Bool
mem_closed c [] = false
mem_closed c (d ∷ ds) = c == d || mem_closed c ds

-- `close(t.done)`: a panic if it is closed already, or nil.
unfoldable pub close_done : Option ℕ → World → Option World
unfolding mem_closed
close_done none w = none
close_done (some c) w =
    if mem_closed c w.closed then none else some (record w { closed = c ∷ w.closed })

-- What the goroutine of `startTunnel` does once the process has ended.
unfoldable pub reap : (Bytes → Bytes) → Option GoError → ℕ → World → Option World
unfolding close_done
reap quote failure p w = close_done (w.cells p).done (assign p (exited quote failure (w.cells p)) w)

-- `startTunnel` of `p`, while nothing else works on the tunnel: `conf` is the result of
-- `generateWireproxyConfig`, `process` that of `cmd.Start`, and `channel` the new channel.
unfoldable pub start_tunnel : (Bytes → Bytes) → Result Bytes → Result ℕ → ℕ → ℕ → ℕ → World → World
start_tunnel quote (err e) process channel now p w =
    assign p
      (record (w.cells p) {
        status = error;
        error_text = codes "config generation failed: " ++ error_string quote e;
      })
      w
start_tunnel quote (ok conf) (err e) channel now p w =
    assign p
      (record (w.cells p) {
        status = error;
        error_text = codes "failed to start wireproxy: " ++ error_string quote e;
        tmp_conf = conf;
        done = some channel;
      })
      w
start_tunnel quote (ok conf) (ok pid) channel now p w =
    assign p
      (record (w.cells p) {
        status = running;
        started_at = some now;
        error_text = [];
        cmd = some pid;
        tmp_conf = conf;
        done = some channel;
      })
      w

-- `generateWireproxyConfig`: the temporary file's content, which `start_tunnel` runs on.
unfoldable pub wireproxy_config : Bytes → ℕ → Bytes
wireproxy_config source port =
    source
    ++ (b'\n'
        ∷ (codes "[Socks5]"
            ++ (b'\n' ∷ (codes "BindAddress = 127.0.0.1:" ++ (decimal port ++ (b'\n' ∷ []))))))
