-- ===== src/Proxy/Retry/Accepting/Statistics.antt =====
-- What the statistics of the retrying proxy count (internal/proxy/retry.go).
use wg_proxy.Common.{
  ℕ, suc, ◌+◌, ◌%◌, ◌^◌, ◌≤◌, ◌<◌, ◌≡◌, refl, ap, Option, none, some, List, [], ◌∷◌, length, arith,
  bind-inv, some-inj, value_of, not, ltb, Bool-cases, inl, inr,
}
use wg_proxy.Common.Bytes.{Bytes}
use wg_proxy.Common.Errors.{GoError, Result, ok, err}
use wg_proxy.Tunnels.{add64}
use wg_proxy.Proxy.Conn.{Incoming, read}
use wg_proxy.Proxy.Connection.Safety.{Read-cases}
use wg_proxy.Proxy.Socks.{is_greeting}
use wg_proxy.Proxy.Retry.Clients.{handle_conn-Defined}
use wg_proxy.Proxy.Retry.{
  Counters, Run, ended, relay, pool, find_upstream, serve, serve_request, handle_conn,
}
use wg_proxy.Proxy.Retry.Accepting.{
  Arrival, Accepted, new_counters, add_run, accept_loop, listen_and_serve, proxy_stats,
}

-- What is added to the counters, the index by at most `turns`.
abbrev pub Accounts : ℕ → Counters → ℕ → ℕ → ℕ → Counters → Type 0
Accounts turns k conns inward outward k' =
    (k'.index ≤ k.index + turns)
    × (k'.conns % 2 ^ 64 ≡ (k.conns + conns) % 2 ^ 64)
    × (k'.bytes_in % 2 ^ 64 ≡ (k.bytes_in + inward) % 2 ^ 64)
    × (k'.bytes_out % 2 ^ 64 ≡ (k.bytes_out + outward) % 2 ^ 64)

ended-Accounts :
    (ws : List Bytes) (k : Counters) (r : Run)
    → ended ws k ≡ r
    → Accounts 1 k 0 (length r.relayed_in) (length r.relayed_out) r.counters
ended-Accounts ws k r e = rw (← e) (omega arith, omega arith, omega arith, omega arith)

module _ (gold backends : List ℕ) (dial : ℕ → Option Incoming) (takes client_takes : Option ℕ) where
  relay-Accounts :
      (u : Option (Incoming × Bytes)) (client : Incoming) (k : Counters) (r : Run)
      → relay gold backends dial takes client_takes u client k ≡ r
      → Accounts 0 k 0 (length r.relayed_in) (length r.relayed_out) r.counters
  relay-Accounts none client k r e = rw (← e) (omega arith, omega arith, omega arith, omega arith)
  relay-Accounts (some (c, answer)) client k r e =
      rw (← e) (omega arith, omega arith, omega arith, omega arith)

  serve-Accounts :
      (request : Bytes) (ports : List ℕ) (client : Incoming) (k : Counters) (r : Run)
      → serve gold backends dial takes client_takes request ports client k ≡ some r
      → Accounts 1 k 0 (length r.relayed_in) (length r.relayed_out) r.counters
  unfolding serve
  serve-Accounts request [] client k r e = ended-Accounts _ k r (some-inj e)
  serve-Accounts request (p ∷ ps) client k r e =
      let v = add64 k.index 1 in
      let (u, eu, e1) = bind-inv (find_upstream request dial (p ∷ ps) v) _ e in
      let (a, b, c, d) = relay-Accounts u client (record k { index = v }) r (some-inj e1) in
      (omega arith, b, c, d)

  serve_request-Accounts :
      (client : Incoming) (k : Counters) (r : Run)
      → serve_request gold backends dial takes client_takes client k ≡ some r
      → Accounts 1 k 0 (length r.relayed_in) (length r.relayed_out) r.counters
  unfolding serve_request
  serve_request-Accounts client k r e = elim (Read-cases (read 258 client)) [
    | inl lost ↦ ended-Accounts _ k r (some-inj (rw (lost, serve_request) at e))
    | inr (m, rest, found) ↦ elim (Bool-cases (ltb (length m) 7)) [
      | inl short ↦ ended-Accounts _ k r (some-inj (rw (found, serve_request, short) at e))
      | inr enough ↦
          serve-Accounts m (pool gold backends dial takes client_takes) rest k r
            (rw (found, serve_request, enough) at e)
    ]
  ]

  -- One connection is counted, and the bytes that were relayed for it.
  handle_conn-Accounts :
      (client : Incoming) (k : Counters) (r : Run)
      → handle_conn gold backends dial takes client_takes client k ≡ some r
      → Accounts 1 k 1 (length r.relayed_in) (length r.relayed_out) r.counters
  unfolding handle_conn
  handle_conn-Accounts client k r e = elim (Read-cases (read 258 client)) [
    | inl lost ↦ opened (ended-Accounts _ k1 r (some-inj (rw (lost, handle_conn) at e)))
    | inr (m, rest, found) ↦
        let (greeted, eg, e1) = bind-inv (is_greeting m) _ (rw (found, handle_conn) at e) in
        elim (Bool-cases (not greeted)) [
          | inl other ↦ opened (ended-Accounts _ k1 r (some-inj (rw other at e1)))
          | inr well ↦ opened (serve_request-Accounts rest k1 r (rw well at e1))
        ]
  ]
    where
      k1 : Counters
      k1 = record k { conns = add64 k.conns 1 }

      opened :
          Accounts 1 k1 0 (length r.relayed_in) (length r.relayed_out) r.counters
          → Accounts 1 k 1 (length r.relayed_in) (length r.relayed_out) r.counters
      opened (i, a, b, c) = (i, omega arith, b, c)

-- The sum of a length over the runs.
abbrev pub total_length : (Run → Bytes) → List Run → ℕ
total_length f [] = 0
total_length f (r ∷ rs) = length (f r) + total_length f rs

accept_loop-Accounts :
    (accepts : List (Result Arrival)) (k : Counters) (s : Accepted)
    → accept_loop accepts k ≡ some s
    → Accounts
        (length s.served)
        k
        (length s.served)
        (total_length (λ r. r.relayed_in) s.served)
        (total_length (λ r. r.relayed_out) s.served)
        s.counters
unfolding accept_loop
accept_loop-Accounts [] k s e =
    rw (← some-inj e) (omega arith, omega arith, omega arith, omega arith)
accept_loop-Accounts (err x ∷ rest) k s e =
    rw (← some-inj e) (omega arith, omega arith, omega arith, omega arith)
accept_loop-Accounts (ok a ∷ rest) k s e =
    let (r, er, e1) =
      bind-inv (handle_conn a.gold a.backends a.dial a.takes a.client_takes a.sends k) _ e in
    let (s1, es, e2) = bind-inv (accept_loop rest r.counters) _ e1 in
    let (i1, a1, b1, c1) =
      handle_conn-Accounts a.gold a.backends a.dial a.takes a.client_takes a.sends k r er in
    let (i2, a2, b2, c2) = accept_loop-Accounts rest r.counters s1 es in
    rw (← some-inj e2) (omega arith, omega arith, omega arith, omega arith)

-- The connections in front of the first error.
abbrev pub accepted : List (Result Arrival) → List Arrival
accepted [] = []
accepted (err e ∷ rest) = []
accepted (ok a ∷ rest) = a ∷ accepted rest

-- The error of the first `Accept` that fails.
abbrev pub first_error : List (Result Arrival) → Option GoError
first_error [] = none
first_error (err e ∷ rest) = some e
first_error (ok a ∷ rest) = first_error rest

accept_loop-total :
    (accepts : List (Result Arrival)) (k : Counters)
    → k.index + length accepts < 2 ^ 63
    → (s : Accepted) × (accept_loop accepts k ≡ some s)
      × (length s.served ≡ length (accepted accepts))
      × (s.result ≡ first_error accepts)
unfolding accept_loop
accept_loop-total [] k h = (_, refl, refl, refl)
accept_loop-total (err x ∷ rest) k h = (_, refl, refl, refl)
accept_loop-total (ok a ∷ rest) k h =
    let (r, er) = value_of (
      handle_conn-Defined a.gold a.backends a.dial a.takes a.client_takes a.sends k
        (omega arith)) in
    let turn =
      handle_conn-Accounts a.gold a.backends a.dial a.takes a.client_takes a.sends k r er in
    let (s, es, count, result) = accept_loop-total rest r.counters (omega (arith, turn.0)) in
    (add_run r s, rw (er, es) refl, ap suc count, result)

-- A new proxy that listens, with fewer than 2^63 connections: it serves each connection up to the
-- first error of `Accept`, which it returns, and panics in none of them. `Stats` then reports their
-- number and the bytes that were relayed for them in both directions, modulo 2^64.
pub listen_and_serve-stats :
    (accepts : List (Result Arrival))
    → length accepts < 2 ^ 63
    → (s : Accepted) × (listen_and_serve none accepts new_counters ≡ some s)
      × (s.result ≡ first_error accepts)
      × (length s.served ≡ length (accepted accepts))
      × ((proxy_stats s.counters).0 % 2 ^ 64 ≡ length (accepted accepts) % 2 ^ 64)
      × ((proxy_stats s.counters).1 % 2 ^ 64 ≡ total_length (λ r. r.relayed_in) s.served % 2 ^ 64)
      × ((proxy_stats s.counters).2 % 2 ^ 64 ≡ total_length (λ r. r.relayed_out) s.served % 2 ^ 64)
unfolding listen_and_serve
listen_and_serve-stats accepts h =
    let (s, es, count, result) = accept_loop-total accepts new_counters (omega arith) in
    let (i, a, b, c) = accept_loop-Accounts accepts new_counters s es in
    (s, es, result, count, omega arith, omega arith, omega arith)
