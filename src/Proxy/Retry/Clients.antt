-- ===== src/Proxy/Retry/Clients.antt =====
-- A client of the retrying proxy: `RetryProxy.handleConn` (internal/proxy/retry.go).
use wg_proxy.Common.{
  ℕ, ◌+◌, ◌^◌, ◌<◌, inl, inr, not, Option, List, [], ◌∷◌, ltb, length, arith, Defined, Defined-bind,
  Defined-some, Defined-if,
}
use wg_proxy.Tunnels.{add64}
use wg_proxy.Common.Bytes.{Bytes}
use wg_proxy.Proxy.Conn.{Incoming, read}
use wg_proxy.Proxy.Socks.Auth.{is_greeting-Defined}
use wg_proxy.Proxy.Connection.Safety.{Read-cases}
use wg_proxy.Proxy.Retry.{Counters, serve, serve_request, handle_conn, pool}
use wg_proxy.Proxy.Retry.Loop.{find_upstream-Defined}

module _ (gold backends : List ℕ) (dial : ℕ → Option Incoming) (takes client_takes : Option ℕ) where
  serve-Defined :
      (request : Bytes) (ports : List ℕ) (client : Incoming) (k : Counters)
      → k.index + 1 < 2 ^ 63
      → Defined (serve gold backends dial takes client_takes request ports client k)
  unfolding serve
  serve-Defined request [] client k h = Defined-some _
  serve-Defined request (p ∷ ps) client k h =
      Defined-bind _ _ (find_upstream-Defined request dial (p ∷ ps) (add64 k.index 1) (omega arith))
        λ up _. Defined-some _

  -- Up to 2^63 connections, `handleConn` returns for any client and any backends, without a panic.
  pub handle_conn-Defined :
      (client : Incoming) (k : Counters)
      → k.index + 1 < 2 ^ 63
      → Defined (handle_conn gold backends dial takes client_takes client k)
  unfolding handle_conn
  handle_conn-Defined client k h = elim (Read-cases (read 258 client)) [
    | inl e ↦ rw (e, handle_conn) (Defined-some _)
    | inr (m, rest, e) ↦
        rw (e, handle_conn)
          (Defined-bind _ _ (is_greeting-Defined m) λ greeted _.
            Defined-if (not greeted) _ _ (λ _. Defined-some _)
              λ _. elim (Read-cases (read 258 rest)) [
                | inl e2 ↦ rw (e2, serve_request) (Defined-some _)
                | inr (m2, rest2, e2) ↦
                    rw (e2, serve_request)
                      (Defined-if (ltb (length m2) 7) _ _ (λ _. Defined-some _)
                        λ _.
                          serve-Defined m2 (pool gold backends dial takes client_takes) rest2 _ h)
              ])
  ]
