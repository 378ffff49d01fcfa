-- ===== src/Proxy/Connection.antt =====
-- One client of the balancing proxy: `Server.handleConnection`, `Server.backendHandshake` and
-- `relay` (internal/proxy/server.go).
-- A run is a function of what the client sends, what the backend that is dialled sends, and the
-- picker. `none` is a panic. Writes to the client never end a run: the program ignores their
-- errors.
pub mod Safety
pub mod Login
pub mod Handshake
pub mod Service
use wg_proxy.Common.{
  ℕ, ◌+◌, Bool, not, ◌&&◌, ◌||◌, Option, none, some, List, [], ◌∷◌, ◌++◌, ◌==◌, ltb, if◌then◌else◌,
  ◌>>=◌, get_elem?, length, take,
}
use wg_proxy.Common.Bytes.{Bytes, is_empty}
use wg_proxy.Tunnels.{Tunnel, Cells, store, add64}
use wg_proxy.Proxy.Conn.{Incoming, failed, got, read, fill, copy}
use wg_proxy.Proxy.Socks.{
  reply, succeeded, general_failure, command_not_supported, method_none, method_password,
  auth_failure, auth_success, is_greeting, is_connect, check_auth, parse_target,
}
use wg_proxy.Proxy.Picker.{Pick}

-- A backend that took the connection: what it will send, and which of the two writes to it succeed.
-- `takes` is the number of bytes of the relay after which a write to it fails, and `client_takes`
-- that of the writes to the client; `none` takes all.
pub record Backend : Type 0 where
  pub sends : Incoming
  pub takes_greeting : Bool
  pub takes_request : Bool
  pub takes : Option ℕ
  pub client_takes : Option ℕ

-- What a run has done when it returns.
pub record Run : Type 0 where
  pub to_client : List Bytes  -- the writes of the handshake, in order
  pub to_backend : List Bytes
  pub dialled : Option Bytes
  pub relayed_in : Bytes  -- from the backend to the client
  pub relayed_out : Bytes
  pub counter : ℕ
  pub cells : Cells

-- The end of the login phase: the writes so far, and the client's further bytes if it may go on.
abbrev pub Phase : Type 0
Phase = List Bytes × Option Incoming

unfoldable pub authenticate : Bytes → Bytes → Incoming → Option Phase
authenticate user pass client = elim (read 258 client) [
  | failed ↦ some (method_password ∷ auth_failure ∷ [], none)
  | got m rest ↦ do
    accepted ← check_auth user pass m
    some (
        if accepted
        then (method_password ∷ auth_success ∷ [], some rest)
        else (method_password ∷ auth_failure ∷ [], none))
]

-- `s.cfg.ProxyUser != "" && s.cfg.ProxyPass != ""`
abbrev pub needs_login : Bytes → Bytes → Bool
needs_login user pass = not (is_empty user) && not (is_empty pass)

-- From the greeting to the CONNECT request.
unfoldable pub negotiate : Bytes → Bytes → Incoming → Option Phase
negotiate user pass client = elim (read 258 client) [
  | failed ↦ some ([], none)
  | got m rest ↦ do
    greeted ← is_greeting m
    if not greeted
        then some ([], none)
        else if needs_login user pass
        then authenticate user pass rest
        else some (method_none ∷ [], some rest)
]

-- The CONNECT request, if the next read holds one.
unfoldable pub read_request : Incoming → Option (Option (Bytes × Incoming))
read_request client = elim (read 258 client) [
  | failed ↦ some none
  | got m rest ↦ do connect ← is_connect m; some (if connect then some (m, rest) else none)
]

-- `backendHandshake`: the writes that succeeded, and the backend's further bytes if it went well.
unfoldable pub backend_handshake : Backend → Bytes → Option Phase
backend_handshake b request =
    if not b.takes_greeting then some ([], none) else elim (read 2 b.sends) [
      | failed ↦ some (greeting ∷ [], none)
      | got m rest ↦ do
        version ← get_elem? (fill 2 m) 0
        method ← get_elem? (fill 2 m) 1
        if not (version == 5) || not (method == 0)
            then some (greeting ∷ [], none)
            else if not b.takes_request
            then some (greeting ∷ [], none)
            else some (greeting ∷ request ∷ [], some rest)
    ]
  where
    greeting : Bytes
    greeting = 5 ∷ 1 ∷ 0 ∷ []

-- The backend's answer to the request, one read of at most 256 bytes: what follows it, if the
-- answer reports success.
unfoldable pub read_answer : Incoming → Option (Option Incoming)
read_answer sends = elim (read 256 sends) [
  | failed ↦ some none
  | got m rest ↦
      if ltb (length m) 2
      then some none
      else do rep ← get_elem? m 1; some (if rep == 0 then some rest else none)
]

-- `ConnCount.Add(1)`, then `relay` with its two sums.
abbrev count_traffic : Tunnel → Bytes → Bytes → Tunnel
count_traffic t inward outward = record t {
  conn_count = add64 t.conn_count 1;
  bytes_in = add64 t.bytes_in (length inward);
  bytes_out = add64 t.bytes_out (length outward);
}

-- The start of a run, with no byte relayed.
abbrev pub begun : ℕ → Cells → Run
begun counter cells = record {
  to_client = [];
  to_backend = [];
  dialled = none;
  relayed_in = [];
  relayed_out = [];
  counter = counter;
  cells = cells;
}

-- `clientConn.Write`
abbrev pub say : Bytes → Run → Run
say w r = record r { to_client = r.to_client ++ (w ∷ []) }

abbrev pub sent : List Bytes → Run → Run
sent ws r = record r { to_backend = ws }

-- `io.Copy` to a peer that takes so many bytes: what was written, as its result counts it.
unfoldable pub copy_to : Option ℕ → Incoming → Bytes
copy_to none stream = copy stream
copy_to (some n) stream = take n (copy stream)

-- From the backend's answer on: the reply, and the relay over what both ends have left.
abbrev pub after_answer : Backend → ℕ → Incoming → Run → Option Incoming → Run
after_answer b t client r none = say (reply general_failure) r
after_answer b t client r (some rest) =
    let inward = copy_to b.client_takes rest in
    let outward = copy_to b.takes client in
    record (say (reply succeeded) r) {
      relayed_in = inward;
      relayed_out = outward;
      cells = store r.cells t (count_traffic (r.cells t) inward outward);
    }

unfoldable pub after_handshake : Backend → ℕ → Incoming → Run → Option Incoming → Option Run
after_handshake b t client r none = some (say (reply general_failure) r)
after_handshake b t client r (some sends) = do
  answer ← read_answer sends
  some (after_answer b t client r answer)

-- From the dialling of the chosen backend on.
unfoldable pub after_dial : Bytes → ℕ → Incoming → Run → Option Backend → Option Run
unfolding after_handshake
after_dial request t client r none = some (say (reply general_failure) r)
after_dial request t client r (some b) = do
  met ← backend_handshake b request
  after_handshake b t client (sent met.0 r) met.1

module _ (pick : Cells → ℕ → Option Pick) (dial : Bytes → Option Backend) where
  unfoldable pub after_pick : Bytes → Incoming → Run → Option (Bytes × ℕ) → Option Run
  unfolding after_dial
  after_pick request client r none = some (say (reply general_failure) r)
  after_pick request client r (some (address, t)) =
      after_dial request t client (record r { dialled = some address }) (dial address)

  unfoldable pub after_request : Run → Option (Bytes × Incoming) → Option Run
  unfolding after_pick
  after_request r none = some (say (reply command_not_supported) r)
  after_request r (some (request, client)) = do
    target ← parse_target request
    p ← pick r.cells r.counter
    after_pick request client (record r { counter = p.counter }) p.chosen

  unfoldable pub after_login : Run → Option Incoming → Option Run
  unfolding after_request
  after_login r none = some r
  after_login r (some client) = do next ← read_request client; after_request r next

  -- `handleConnection`
  unfoldable pub handle_connection : Bytes → Bytes → Incoming → ℕ → Cells → Option Run
  unfolding after_login
  handle_connection user pass client counter cells = do
    phase ← negotiate user pass client
    after_login (record (begun counter cells) { to_client = phase.0 }) phase.1
