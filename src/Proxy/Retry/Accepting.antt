-- ===== src/Proxy/Retry/Accepting.antt =====
-- The accept loop of the retrying proxy and its statistics (internal/proxy/retry.go):
-- `RetryProxy.ListenAndServe` and `Stats`. The connections are served one after the other, although
-- each has a goroutine of its own: the counters are only added to.
pub mod Statistics
use wg_proxy.Common.{ℕ, refl, Option, none, some, List, [], ◌∷◌, ◌>>=◌, arith}
use wg_proxy.Common.Errors.{GoError, Result, ok, err}
use wg_proxy.Proxy.Conn.{Incoming}
use wg_proxy.Proxy.Retry.{Counters, Run, handle_conn}

-- What a connection meets: the client's bytes, the ports that `goldPool` and `backends` return, and
-- the streams of the backends, and the bytes that both ends take.
pub record Arrival : Type 0 where
  pub sends : Incoming
  pub gold : List ℕ
  pub backends : List ℕ
  pub dial : ℕ → Option Incoming
  pub takes : Option ℕ
  pub client_takes : Option ℕ

-- The runs of the connections, the counters, and the error that the loop has returned.
pub record Accepted : Type 0 where
  pub served : List Run
  pub counters : Counters
  pub result : Option GoError

-- The counters of `NewRetryProxy`.
abbrev pub new_counters : Counters
new_counters = record { index = 0; conns = 0; bytes_in = 0; bytes_out = 0 }

abbrev pub add_run : Run → Accepted → Accepted
add_run r s = record s { served = r ∷ s.served }

-- The loop of `ListenAndServe` over the results of `Accept`; it waits when there are no more.
unfoldable pub accept_loop : List (Result Arrival) → Counters → Option Accepted
accept_loop [] k = some record { served = []; counters = k; result = none }
accept_loop (err e ∷ rest) k = some record { served = []; counters = k; result = some e }
accept_loop (ok a ∷ rest) k = do
  r ← handle_conn a.gold a.backends a.dial a.takes a.client_takes a.sends k
  s ← accept_loop rest r.counters
  some (add_run r s)

-- `ListenAndServe`, given what `net.Listen` returns
unfoldable pub listen_and_serve :
    Option GoError → List (Result Arrival) → Counters → Option Accepted
unfolding accept_loop
listen_and_serve (some e) accepts k = some record { served = []; counters = k; result = some e }
listen_and_serve none accepts k = accept_loop accepts k

-- `Stats`
abbrev pub proxy_stats : Counters → ℕ × ℕ × ℕ
proxy_stats k = (k.conns, k.bytes_in, k.bytes_out)
