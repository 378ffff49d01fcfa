-- ===== src/Proxy/Connection/Safety.antt =====
-- No client and no backend can make `handleConnection` (internal/proxy/server.go) panic.
use wg_proxy.Common.{
  ℕ, ◌-◌, ◌≤◌, ◌≡◌, ◌⊎◌, inl, inr, refl, not, ◌||◌, Option, none, some, ◌==◌, ltb,
  get_elem?-Defined, length, arith, Defined, Defined-bind, Defined-some, Defined-if, not_ltb→le,
  length-append, length-replicate, replicate,
}
use wg_proxy.Common.Bytes.{Bytes}
use wg_proxy.Tunnels.{Cells}
use wg_proxy.Proxy.Conn.{Incoming, Read, failed, got, read, fill}
use wg_proxy.Proxy.Socks.Auth.{is_greeting-Defined, is_connect-Defined, check_auth-Defined}
use wg_proxy.Proxy.Socks.Target.{parse_target-Defined}
use wg_proxy.Proxy.Picker.{Pick}
use wg_proxy.Proxy.Connection.{
  Backend, Run, authenticate, needs_login, negotiate, read_request, backend_handshake, read_answer,
  sent, after_handshake, after_dial, after_pick, after_request, after_login, handle_connection,
}

pub Read-cases : (r : Read) → (r ≡ failed) ⊎ ((m : Bytes) × (rest : Incoming) × (r ≡ got m rest))
Read-cases failed = inl refl
Read-cases (got m rest) = inr (m, rest, refl)

authenticate-Defined :
    (user pass : Bytes) (client : Incoming) → Defined (authenticate user pass client)
unfolding authenticate
authenticate-Defined user pass client = elim (Read-cases (read 258 client)) [
  | inl e ↦ rw (e, authenticate) (Defined-some _)
  | inr (m, rest, e) ↦
      rw (e, authenticate)
        (Defined-bind _ _ (check_auth-Defined user pass m) λ accepted _. Defined-some _)
]

negotiate-Defined : (user pass : Bytes) (client : Incoming) → Defined (negotiate user pass client)
unfolding negotiate
negotiate-Defined user pass client = elim (Read-cases (read 258 client)) [
  | inl e ↦ rw (e, negotiate) (Defined-some _)
  | inr (m, rest, e) ↦
      rw (e, negotiate)
        (Defined-bind _ _ (is_greeting-Defined m) λ greeted _.
          Defined-if (not greeted) _ _ (λ _. Defined-some _)
            λ _.
              Defined-if (needs_login user pass) _ _ (λ _. authenticate-Defined user pass rest)
                λ _. Defined-some _)
]

read_request-Defined : (client : Incoming) → Defined (read_request client)
unfolding read_request
read_request-Defined client = elim (Read-cases (read 258 client)) [
  | inl e ↦ rw (e, read_request) (Defined-some _)
  | inr (m, rest, e) ↦
      rw (e, read_request) (Defined-bind _ _ (is_connect-Defined m) λ connect _. Defined-some _)
]

length-fill : (size : ℕ) (bs : Bytes) → size ≤ length (fill size bs)
length-fill size bs = omega (
  arith,
  length-append bs (replicate (size - length bs) 0),
  length-replicate {A = ℕ} (size - length bs) 0,
)

backend_handshake-Defined : (b : Backend) (request : Bytes) → Defined (backend_handshake b request)
unfolding backend_handshake
backend_handshake-Defined b request =
    Defined-if (not b.takes_greeting) _ _ (λ _. Defined-some _)
      λ _. elim (Read-cases (read 2 b.sends)) [
        | inl e ↦ rw e (Defined-some _)
        | inr (m, rest, e) ↦
            let size = length-fill 2 m in
            rw e (
              Defined-bind _ _ (get_elem?-Defined (fill 2 m) 0 (omega arith)) λ version _.
                Defined-bind _ _ (get_elem?-Defined (fill 2 m) 1 (omega arith)) λ method _.
                  Defined-if (not (version == 5) || not (method == 0)) _ _ (λ _. Defined-some _)
                    λ _.
                      Defined-if (not b.takes_request) _ _ (λ _. Defined-some _)
                        λ _. Defined-some _)
      ]

read_answer-Defined : (sends : Incoming) → Defined (read_answer sends)
unfolding read_answer
read_answer-Defined sends = elim (Read-cases (read 256 sends)) [
  | inl e ↦ rw (e, read_answer) (Defined-some _)
  | inr (m, rest, e) ↦
      rw (e, read_answer)
        (Defined-if (ltb (length m) 2) _ _ (λ _. Defined-some _)
          λ long.
            let h : 2 ≤ length m = not_ltb→le _ _ long in
            Defined-bind _ _ (get_elem?-Defined m 1 (omega arith)) λ rep _. Defined-some _)
]

after_handshake-Defined :
    (b : Backend) (t : ℕ) (client : Incoming) (r : Run) (met : Option Incoming)
    → Defined (after_handshake b t client r met)
unfolding after_handshake
after_handshake-Defined b t client r none = Defined-some _
after_handshake-Defined b t client r (some sends) =
    Defined-bind _ _ (read_answer-Defined sends) λ answer _. Defined-some _

after_dial-Defined :
    (request : Bytes) (t : ℕ) (client : Incoming) (r : Run) (b : Option Backend)
    → Defined (after_dial request t client r b)
unfolding after_dial
after_dial-Defined request t client r none = Defined-some _
after_dial-Defined request t client r (some b) =
    Defined-bind _ _ (backend_handshake-Defined b request)
      λ met _. after_handshake-Defined b t client (sent met.0 r) met.1

module _ (pick : Cells → ℕ → Option Pick) (dial : Bytes → Option Backend)
    (pick-Defined : (cells : Cells) (counter : ℕ) → Defined (pick cells counter)) where
  after_pick-Defined :
      (request : Bytes) (client : Incoming) (r : Run) (c : Option (Bytes × ℕ))
      → Defined (after_pick pick dial request client r c)
  unfolding after_pick
  after_pick-Defined request client r none = Defined-some _
  after_pick-Defined request client r (some (address, t)) = after_dial-Defined request t client _ _

  after_request-Defined :
      (r : Run) (next : Option (Bytes × Incoming)) → Defined (after_request pick dial r next)
  unfolding after_request
  after_request-Defined r none = Defined-some _
  after_request-Defined r (some (request, client)) =
      Defined-bind _ _ (parse_target-Defined request) λ target _.
        Defined-bind _ _ (pick-Defined r.cells r.counter)
          λ p _. after_pick-Defined request client _ p.chosen

  after_login-Defined :
      (r : Run) (passed : Option Incoming) → Defined (after_login pick dial r passed)
  unfolding after_login
  after_login-Defined r none = Defined-some _
  after_login-Defined r (some client) =
      Defined-bind _ _ (read_request-Defined client) λ next _. after_request-Defined r next

  -- With a picker that does not panic, `handleConnection` returns for any bytes that the client and
  -- the backends send in any segments: no index and no slice bound passes the end of its buffer.
  pub handle_connection-Defined :
      (user pass : Bytes) (client : Incoming) (counter : ℕ) (cells : Cells)
      → Defined (handle_connection pick dial user pass client counter cells)
  unfolding handle_connection
  handle_connection-Defined user pass client counter cells =
      Defined-bind _ _ (negotiate-Defined user pass client) λ phase _. after_login-Defined _ phase.1
