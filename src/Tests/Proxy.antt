-- ===== src/Tests/Proxy.antt =====
-- Clients of the balancing proxy.
use wg_proxy.Common.{ℕ, ◌≡◌, ◌↔◌, ◌⊎◌, refl, true, Option, none, some, [], ◌∷◌, arith, Defined}
use wg_proxy.Common.Bytes.{Bytes, codes, bytes_eq}
use wg_proxy.Tunnels.{Cells}
use wg_proxy.Proxy.Socks.{reply, succeeded, method_password, auth_failure, check_auth, is_greeting}
use wg_proxy.Proxy.Socks.Auth.{login, check_auth_iff}
use wg_proxy.Proxy.Socks.Target.{connect_domain}
use wg_proxy.Proxy.Picker.{Pick, pick, picks}
use wg_proxy.Proxy.Picker.RoundRobin.{pick-Defined, picks-rotation}
use wg_proxy.Proxy.Conn.{Incoming, read}
use wg_proxy.Proxy.Connection.{Backend, Run, negotiate, authenticate, handle_connection}
use wg_proxy.Proxy.Connection.Login.{LoggedIn, login_required}
use wg_proxy.Proxy.Connection.Safety.{handle_connection-Defined}
use wg_proxy.Tests.Data.{cells, listed}

abbrev user : Bytes
user = codes "ann"

abbrev pass : Bytes
pass = codes "s3cret"

abbrev greeting : Bytes
greeting = 5 ∷ 2 ∷ 0 ∷ 2 ∷ []

abbrev connect : Bytes
connect = connect_domain 5 1 0 (codes "a.io") 1 187 []

-- The backend of the tunnel on port 10003, which answers "hi" behind its reply and leaves after two
-- bytes of the client.
abbrev backend : Backend
backend = record {
  sends = (5 ∷ 0 ∷ []) ∷ reply succeeded ∷ codes "hi" ∷ [];
  takes_greeting = true;
  takes_request = true;
  takes = some 2;
  client_takes = none;
}

abbrev dial : Bytes → Option Backend
dial address = some backend

abbrev picker : Cells → ℕ → Option Pick
picker c n = pick c listed n

abbrev good_client : Incoming
good_client = greeting ∷ login user pass [] ∷ connect ∷ codes "GET" ∷ []

abbrev bad_client : Incoming
bad_client = greeting ∷ login user (codes "guess") [] ∷ connect ∷ codes "GET" ∷ []

abbrev refused : Run
refused = record {
  to_client = method_password ∷ auth_failure ∷ [];
  to_backend = [];
  dialled = none;
  relayed_in = [];
  relayed_out = [];
  counter = 3;
  cells = cells;
}

refused_run : handle_connection picker dial user pass bad_client 3 cells ≡ some refused
unfolding handle_connection negotiate authenticate check_auth is_greeting read bytes_eq
refused_run = refl

login_required_example :
    LoggedIn user pass bad_client
    ⊎ ((refused.dialled ≡ none)
        × (refused.to_backend ≡ [])
        × (refused.cells ≡ cells)
        × (refused.counter ≡ 3))
login_required_example =
    login_required picker dial user pass bad_client 3 cells refused refl refused_run

handle_connection-Defined_example :
    Defined (handle_connection picker dial user pass good_client 3 cells)
handle_connection-Defined_example =
    handle_connection-Defined picker dial (λ c n. pick-Defined c listed n) user pass good_client 3
      cells

picks-rotation_example : picks cells listed 7 2 ≡ some (2 ∷ 0 ∷ [])
picks-rotation_example = picks-rotation cells listed 7 (omega arith) (omega arith)

check_auth_iff_example :
    (check_auth user pass (login user pass (codes "x")) ≡ some true)
    ↔ ((rest : Bytes) × (login user pass (codes "x") ≡ login user pass rest))
check_auth_iff_example = check_auth_iff user pass (login user pass (codes "x")) (λ e. cc) (λ e. cc)
