-- ===== src/Proxy/Retry.antt =====
-- The retrying proxy (internal/proxy/retry.go): `RetryProxy.handleConn` and `tryBackend`.
-- A run is a function of what the client sends and of the stream of each backend port; `none` is a
-- panic. Deadlines show only as streams that end. As in the source, writes are not checked.
pub mod Loop
pub mod Replies
pub mod Clients
pub mod Accepting
use Prim.Native.Nat.{min}
use wg_proxy.Common.{
  ℕ, zero, suc, ◌+◌, ◌-◌, ◌%◌, ◌^◌, Bool, true, false, not, Option, none, some, List, [], ◌∷◌, ◌++◌,
  ◌==◌, ltb, if◌then◌else◌, ◌>>=◌, get_elem?, length,
}
use wg_proxy.Common.Bytes.{Bytes}
use wg_proxy.Tunnels.{add64}
use wg_proxy.Proxy.Conn.{Incoming, failed, got, read, read_full, fill}
use wg_proxy.Proxy.Connection.{copy_to}
use wg_proxy.Proxy.Socks.{reply, general_failure, connection_refused, method_none, is_greeting}

-- What a call of `tryBackend` did and returned: the writes to the backend; the connection, or nil;
-- the reply; whether the error is not nil.
pub record Attempt : Type 0 where
  pub writes : List Bytes
  pub conn : Option Incoming
  pub answer : Bytes
  pub erred : Bool

abbrev pub no_conn : List Bytes → Bool → Attempt
no_conn writes erred = record { writes = writes; conn = none; answer = []; erred = erred }

-- `[]byte{0x05, 0x01, 0x00}`
abbrev pub hello : Bytes
hello = 5 ∷ 1 ∷ 0 ∷ []

-- `switch reply[3]`
abbrev pub rest_size : ℕ → ℕ
rest_size kind = if kind == 4 then 18 else 6

module _ (request : Bytes) where
  abbrev pub forwarded : List Bytes
  forwarded = hello ∷ request ∷ []

  -- The last `io.ReadFull` of a reply is not checked: what it does not fill stays zero.
  abbrev pub read_rest : Bytes → ℕ → Incoming → Attempt
  read_rest head size c = record {
    writes = forwarded;
    conn = some (read_full size c).rest;
    answer = head ++ fill size (read_full size c).bytes;
    erred = false;
  }

  -- The length byte of a domain name and the reply behind it.
  read_domain : Bytes → Incoming → Option Attempt
  read_domain head c = do
    let len = fill 1 (read_full 1 c).bytes
    n ← get_elem? len 0
    some (read_rest (head ++ len) (n + 2) (read_full 1 c).rest)

  pub read_address : Bytes → Incoming → Option Attempt
  read_address head c = do
    kind ← get_elem? head 3
    if kind == 3 then read_domain head c else some (read_rest head (rest_size kind) c)

  -- The reply to the request that was forwarded.
  pub read_reply : Incoming → Option Attempt
  read_reply c = elim (read_full 4 c).full [
    | false ↦ some (no_conn forwarded true)
    | true ↦ do
      rep ← get_elem? (read_full 4 c).bytes 1
      if not (rep == 0)
          then some (no_conn forwarded true)
          else read_address (read_full 4 c).bytes (read_full 4 c).rest
  ]

  -- `tryBackend` on the stream of the backend, or `none` where it cannot be dialled. The test
  -- `err != nil || buf[1] != 0x00` returns the `err` of that read, which is nil on its right side.
  unfoldable pub try_backend : Option Incoming → Option Attempt
  unfolding read_domain read_address read_reply
  try_backend none = some (no_conn [] true)
  try_backend (some c) = elim (read_full 2 c).full [
    | false ↦ some (no_conn (hello ∷ []) true)
    | true ↦ do
      method ← get_elem? (read_full 2 c).bytes 1
      if not (method == 0)
          then some (no_conn (hello ∷ []) false)
          else read_reply (read_full 2 c).rest
  ]

abbrev pub max_retries : ℕ
max_retries = 5

-- `(int(v) % n + attempt) % n` for a uint64 `v`: Go's `int(v)` is negative from 2^63 on, and `%`
-- keeps the sign. A negative index panics.
unfoldable pub backend_index : ℕ → ℕ → ℕ → Option ℕ
backend_index v n attempt =
    if ltb v (2 ^ 63)
    then some ((v % n + attempt) % n)
    else if ltb attempt ((2 ^ 64 - v) % n)
    then none
    else some ((attempt - (2 ^ 64 - v) % n) % n)

module _ (request : Bytes) (dial : ℕ → Option Incoming) where
  -- The loop over attempts, with the rounds that are left: the upstream and its reply, if any.
  unfoldable pub attempts : List ℕ → ℕ → ℕ → ℕ → Option (Option (Incoming × Bytes))
  attempts ports v zero attempt = some none
  attempts ports v (suc rounds) attempt = do
    idx ← backend_index v (length ports) attempt
    port ← get_elem? ports idx
    t ← try_backend request (dial port)
    elim t.erred [
      | true ↦ attempts ports v rounds (attempt + 1)
      | false ↦ some (elim t.conn [ none ↦ none | some c ↦ some (c, t.answer) ])
    ]

  -- `attempt < rp.maxRetries && attempt < len(ports)`
  unfoldable pub find_upstream : List ℕ → ℕ → Option (Option (Incoming × Bytes))
  unfolding attempts
  find_upstream ports v = attempts ports v (min max_retries (length ports)) 0

-- The counters of a `RetryProxy`.
pub record Counters : Type 0 where
  pub index : ℕ
  pub conns : ℕ
  pub bytes_in : ℕ
  pub bytes_out : ℕ

-- What a run has done when it returns.
pub record Run : Type 0 where
  pub to_client : List Bytes  -- the writes of the handshake, in order
  pub relayed_in : Bytes  -- from the client to the upstream: `bytesIn` counts these
  pub relayed_out : Bytes
  pub counters : Counters

abbrev pub ended : List Bytes → Counters → Run
ended writes k = record { to_client = writes; relayed_in = []; relayed_out = []; counters = k }

-- `takes` and `client_takes` are the numbers of bytes of the relay after which a write to the
-- upstream or to the client fails; `none` takes all.
module _ (gold backends : List ℕ) (dial : ℕ → Option Incoming) (takes client_takes : Option ℕ) where
  -- `ports := rp.goldPool()`, or `rp.backends()` if that is empty
  abbrev pub pool : List ℕ
  pool = elim gold [ [] ↦ backends | p ∷ ps ↦ p ∷ ps ]

  -- From the found upstream on.
  abbrev pub relay : Option (Incoming × Bytes) → Incoming → Counters → Run
  relay none client k = ended (method_none ∷ reply connection_refused ∷ []) k
  relay (some (upstream, answer)) client k = record {
    to_client = method_none ∷ answer ∷ [];
    relayed_in = copy_to takes client;
    relayed_out = copy_to client_takes upstream;
    counters = record k {
      bytes_in = add64 k.bytes_in (length (copy_to takes client));
      bytes_out = add64 k.bytes_out (length (copy_to client_takes upstream));
    };
  }

  -- From the request on, of which `n < 7` is the only test.
  unfoldable pub serve : Bytes → List ℕ → Incoming → Counters → Option Run
  serve request [] client k = some (ended (method_none ∷ reply general_failure ∷ []) k)
  serve request (p ∷ ps) client k = do
    let v = add64 k.index 1
    upstream ← find_upstream request dial (p ∷ ps) v
    some (relay upstream client (record k { index = v }))

  unfoldable pub serve_request : Incoming → Counters → Option Run
  serve_request client k = elim (read 258 client) [
    | failed ↦ some (ended (method_none ∷ []) k)
    | got m rest ↦
        if ltb (length m) 7 then some (ended (method_none ∷ []) k) else serve m pool rest k
  ]

  -- `handleConn`
  unfoldable pub handle_conn : Incoming → Counters → Option Run
  unfolding serve_request
  handle_conn client k0 = elim (read 258 client) [
    | failed ↦ some (ended [] k)
    | got m rest ↦ do
      greeted ← is_greeting m
      if not greeted then some (ended [] k) else serve_request rest k
  ]
    where
      k : Counters
      k = record k0 { conns = add64 k0.conns 1 }
