-- ===== src/Proxy/Connection/Login.antt =====
-- What a login protects in `handleConnection` (internal/proxy/server.go).
use wg_proxy.Common.{
  ℕ, ◌≡◌, ◌≢◌, ◌⊎◌, inl, inr, refl, sym, ap, ◌∙◌, true, Option, none, some, List, [], ◌∷◌,
  Bool-cases, bind-inv, some-inj,
}
use wg_proxy.Common.Bytes.{Bytes}
use wg_proxy.Tunnels.{Cells}
use wg_proxy.Proxy.Conn.{Incoming, got, read}
use wg_proxy.Proxy.Socks.{is_greeting, check_auth}
use wg_proxy.Proxy.Socks.Auth.{check_auth_iff, login}
use wg_proxy.Proxy.Picker.{Pick}
use wg_proxy.Proxy.Connection.Safety.{Read-cases}
use wg_proxy.Proxy.Connection.{
  Backend, Run, Phase, authenticate, needs_login, negotiate, begun, after_login, handle_connection,
}

last : Option Phase → Option Incoming
last none = none
last (some phase) = phase.1

-- The client's first read is its greeting, and the second the login message, with any bytes behind.
abbrev pub LoggedIn : Bytes → Bytes → Incoming → Type 0
LoggedIn user pass client =
    (m : Bytes) × (rest : Incoming) × (x : Bytes) × (more : Incoming) × (read 258 client
      ≡ got m rest)
    × (read 258 rest ≡ got (login user pass x) more)

needs_login-ne : (user pass : Bytes) → needs_login user pass ≡ true → (user ≢ []) × (pass ≢ [])
needs_login-ne [] pass h = cc
needs_login-ne (x ∷ user) [] h = cc
needs_login-ne (x ∷ user) (y ∷ pass) h = (λ e. cc, λ e. cc)

authenticate-passed :
    (user pass : Bytes) (client : Incoming) (phase : Phase)
    → needs_login user pass ≡ true
    → authenticate user pass client ≡ some phase
    → (phase.1 ≡ none)
      ⊎ ((x : Bytes) × (more : Incoming) × (read 258 client ≡ got (login user pass x) more))
unfolding authenticate last
authenticate-passed user pass client phase needs e = elim (Read-cases (read 258 client)) [
  | inl dead ↦
      let e' = rw (dead, authenticate) at e in inl (ap (λ (o : Option Phase). last o) (sym e'))
  | inr (m, rest, here) ↦
      let (ok, eok, e2) = bind-inv (check_auth user pass m) _ (rw (here, authenticate) at e) in
      elim (Bool-cases ok) [
        | inl yes_ok ↦
            let (hu, hp) = needs_login-ne user pass needs in
            let (x, same) = (check_auth_iff user pass m hu hp).0 (eok ∙ ap some yes_ok) in
            inr (x, rest, here ∙ ap (λ b. got b rest) same)
        | inr no_ok ↦ inl (ap (λ (o : Option Phase). last o) (sym (rw no_ok at e2)))
      ]
]

negotiate-passed :
    (user pass : Bytes) (client : Incoming) (phase : Phase)
    → needs_login user pass ≡ true
    → negotiate user pass client ≡ some phase
    → (phase.1 ≡ none) ⊎ LoggedIn user pass client
unfolding negotiate last
negotiate-passed user pass client phase needs e = elim (Read-cases (read 258 client)) [
  | inl dead ↦
      let e' = rw (dead, negotiate) at e in inl (ap (λ (o : Option Phase). last o) (sym e'))
  | inr (m, rest, here) ↦
      let (greeted, eg, e2) = bind-inv (is_greeting m) _ (rw (here, negotiate) at e) in
      elim (Bool-cases greeted) [
        | inr no_greeting ↦ inl (ap (λ (o : Option Phase). last o) (sym (rw no_greeting at e2)))
        | inl greeting ↦
            elim (authenticate-passed user pass rest phase needs (rw (greeting, needs) at e2)) [
              | inl stopped ↦ inl stopped
              | inr (x, more, there) ↦ inr (m, rest, x, more, here, there)
            ]
      ]
]

-- With a user and a password set, a client that does not send the login message of exactly that
-- user and password as its second message reaches nothing: no backend is dialled, no tunnel's
-- counters change and the balance does not move.
pub login_required :
    (pick : Cells → ℕ → Option Pick) (dial : Bytes → Option Backend) (user pass : Bytes)
    (client : Incoming) (counter : ℕ) (cells : Cells) (r : Run)
    → needs_login user pass ≡ true
    → handle_connection pick dial user pass client counter cells ≡ some r
    → LoggedIn user pass client
      ⊎ ((r.dialled ≡ none) × (r.to_backend ≡ []) × (r.cells ≡ cells) × (r.counter ≡ counter))
unfolding handle_connection after_login
login_required pick dial user pass client counter cells r needs e =
    let (phase, ep, e2) = bind-inv (negotiate user pass client) _ e in
    elim (negotiate-passed user pass client phase needs ep) [
      | inr logged ↦ inl logged
      | inl stopped ↦ inr (kept (some-inj (rw stopped at e2)))
    ]
  where
    kept :
        {w : List Bytes}
        → record (begun counter cells) { to_client = w } ≡ r
        → (r.dialled ≡ none) × (r.to_backend ≡ []) × (r.cells ≡ cells) × (r.counter ≡ counter)
    kept e = rw (← e) (refl, refl, refl, refl)
