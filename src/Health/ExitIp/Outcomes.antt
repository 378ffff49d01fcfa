-- ===== src/Health/ExitIp/Outcomes.antt =====
-- When an exit address is resolved (internal/health/checker.go).
use wg_proxy.Common.{
  ℕ, ◌-◌, ◌<◌, ◌≤◌, ◌≡◌, inl, inr, refl, none, some, List, [], ◌∷◌, ◌==◌, if◌then◌else◌, get_elem?,
  length, replicate, arith, length-append, length-replicate, Bool-cases,
}
use wg_proxy.Common.Bytes.{Bytes, codes}
use wg_proxy.Common.Errors.{GoError, message, Result, ok, err}
use wg_proxy.Proxy.Conn.{Incoming, failed, got, read, fill}
use wg_proxy.Proxy.Conn.Laws.{length-read}
use wg_proxy.Health.ExitIp.{blind_read, connect_request, judge, dial_exit, address_in, exit_ip_of}

-- A buffer at an index that the bytes in it reach, and behind them.
fill-within :
    (size : ℕ) (m : Bytes) (x : ℕ) → get_elem? m 1 ≡ some x → get_elem? (fill size m) 1 ≡ some x
fill-within size [] x e = ground arith
fill-within size (a ∷ []) x e = ground arith
fill-within size (a ∷ b ∷ m) x e = e

fill-behind : (m : Bytes) → length m < 2 → get_elem? (fill 256 m) 1 ≡ some 0
fill-behind [] h = refl
fill-behind (a ∷ []) h = refl
fill-behind (a ∷ b ∷ m) h = absurd (omega arith)

length-fill : (size : ℕ) (m : Bytes) → length m ≤ size → length (fill size m) ≡ size
length-fill size m h = omega (
  arith,
  length-append m (replicate (size - length m) 0),
  length-replicate {A = ℕ} (size - length m) 0,
)

-- `Dial` on a buffer whose second byte is known.
judge_lem :
    (writes : List Bytes) (resp : Bytes) (rest : Incoming) (code : ℕ)
    → length resp ≡ 256
    → get_elem? resp 1 ≡ some code
    → judge writes (resp, rest)
      ≡ some record {
        writes = writes;
        conn = if code == 0 then ok rest else err (message (codes "SOCKS5 connect failed"));
      }
judge_lem writes resp rest code l e = rw (e, l) (ground arith)

blind_read-got :
    (size : ℕ) (c : Incoming) (m : Bytes) (rest : Incoming)
    → read size c ≡ got m rest
    → blind_read size c ≡ (fill size m, rest)
unfolding blind_read
blind_read-got size c m rest e = rw (e, blind_read) refl

blind_read-failed :
    (size : ℕ) (c : Incoming) → read size c ≡ failed → blind_read size c ≡ (replicate size 0, [])
unfolding blind_read
blind_read-failed size c e = rw (e, blind_read) refl

-- What `Dial` writes.
abbrev greeted : List Bytes
greeted = (5 ∷ 1 ∷ 0 ∷ []) ∷ connect_request (codes "ifconfig.me") ∷ []

module _ (http_get : Result Incoming → Result (Result Bytes))
    (refuses : (e : GoError) → address_in (http_get (err e)) ≡ none) where
  exit_ip_of_code :
      (c rest : Incoming) (m : Bytes) (code : ℕ)
      → read 256 (blind_read 2 c).1 ≡ got m rest
      → get_elem? (fill 256 m) 1 ≡ some code
      → exit_ip_of http_get (ok c)
        ≡ some (if code == 0 then address_in (http_get (ok rest)) else none)
  unfolding exit_ip_of dial_exit
  exit_ip_of_code c rest m code e at_code =
      let size = length-fill 256 m (length-read 256 (blind_read 2 c).1 m rest e) in
      rw
        (
          blind_read-got 256 (blind_read 2 c).1 m rest e,
          judge_lem greeted (fill 256 m) rest code size at_code,
        )
        (elim (Bool-cases (code == 0)) [
          | inl zero_code ↦ rw zero_code refl
          | inr other ↦ rw (other, refuses (message (codes "SOCKS5 connect failed"))) refl
        ])

  -- Let a failed dial make the request fail. Once the proxy has answered the CONNECT request, its
  -- result code decides: with code 0 the address is what the request returns, without the space
  -- around it, or none if that fails; with another code no address is found. An answer of fewer
  -- than two bytes has no result code and is taken for a success.
  pub exit_ip_of-answer :
      (c rest : Incoming) (m : Bytes)
      → read 256 (blind_read 2 c).1 ≡ got m rest
      → ((code : ℕ)
          → get_elem? m 1 ≡ some code
          → exit_ip_of http_get (ok c)
            ≡ some (if code == 0 then address_in (http_get (ok rest)) else none))
        × (length m < 2 → exit_ip_of http_get (ok c) ≡ some (address_in (http_get (ok rest))))
  exit_ip_of-answer c rest m e = (
    λ code at_code. exit_ip_of_code c rest m code e (fill-within 256 m code at_code),
    λ short. exit_ip_of_code c rest m 0 e (fill-behind m short),
  )

  -- Let a failed dial make the request fail. A proxy that closes the connection before it answers
  -- the CONNECT request is taken for one that connected: the request is sent on the closed
  -- connection.
  exit_ip_of-closed :
      (c : Incoming)
      → read 256 (blind_read 2 c).1 ≡ failed
      → exit_ip_of http_get (ok c) ≡ some (address_in (http_get (ok [])))
  unfolding exit_ip_of dial_exit
  exit_ip_of-closed c e = rw (blind_read-failed 256 (blind_read 2 c).1 e) refl
