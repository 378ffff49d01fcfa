-- ===== src/Proxy/Accepting.antt =====
-- The listeners of the balancing proxy (internal/proxy/server.go): `ListenAndServe`,
-- `serveCountryProxy` and `Close`, which run as goroutines of their own. A listener is a number,
-- and so is a connection. A step is what one goroutine does up to its next look at the shared
-- fields; any goroutine may be next. `StartCountryProxies` and the last loop of `Close` each hold
-- the lock of the countries, and so are one step.
pub mod Closing
pub mod Ending
pub mod Overtaking
use mathlib.Core.List.{Memᴰ}
use wg_proxy.Common.{
  ℕ, zero, suc, ◌+◌, ◌≡◌, Bool, true, false, Option, none, some, List, [], ◌∷◌, ◌++◌, map,
}

-- The fields `closed`, `listener` and `countryListeners` of a `Server`; the listeners that are
-- closed and the next one that `net.Listen` makes; and the connections that got a
-- `handleConnection`, each with its listener.
pub record Sockets : Type 0 where
  pub closed : Bool
  pub listener : Option ℕ
  pub country_listeners : List ℕ
  pub shut : List ℕ
  pub fresh : ℕ
  pub handled : List (ℕ × ℕ)

-- `NewServer`
abbrev pub no_sockets : Sockets
no_sockets = record {
  closed = false;
  listener = none;
  country_listeners = [];
  shut = [];
  fresh = 0;
  handled = [];
}

-- A goroutine, by what it does next.
pub data Goroutine : Type 0 where
  -- `ListenAndServe`: at `net.Listen`, and with the listener that it got
  listen : Goroutine
  keep_listener : ℕ → Goroutine
  -- an accept loop: at `Accept`, and with the error that it got
  accept failed : ℕ → Goroutine
  -- `StartCountryProxies`
  open_countries : Goroutine
  -- `Close`: at its three statements
  close close_main close_countries : Goroutine

-- `n` listeners from a number on.
abbrev pub listeners_from : ℕ → ℕ → List ℕ
listeners_from zero first = []
listeners_from (suc n) first = first ∷ listeners_from n (suc first)

abbrev pub shut_main : Option ℕ → Sockets → Sockets
shut_main none s = s
shut_main (some l) s = record s { shut = l ∷ s.shut }

-- A step of one goroutine: the fields behind it, and the goroutines that go on.
pub data Advances : Sockets → Goroutine → Sockets → List Goroutine → Type 0 where
  cannot_listen : (s : Sockets) → Advances s listen s []
  listens :
      (s : Sockets)
      → Advances s listen (record s { fresh = suc s.fresh }) (keep_listener s.fresh ∷ [])
  keeps_listener :
      (l : ℕ) (s : Sockets)
      → Advances s (keep_listener l) (record s { listener = some l }) (accept l ∷ [])
  -- a listener that is closed accepts nothing more
  accepts :
      (conn l : ℕ) (s : Sockets)
      → ¬ Memᴰ l s.shut
      → Advances s (accept l) (record s { handled = s.handled ++ ((l, conn) ∷ []) }) (accept l ∷ [])
  accept_fails : (l : ℕ) (s : Sockets) → Advances s (accept l) s (failed l ∷ [])
  returns : (l : ℕ) (s : Sockets) → s.closed ≡ true → Advances s (failed l) s []
  goes_on : (l : ℕ) (s : Sockets) → s.closed ≡ false → Advances s (failed l) s (accept l ∷ [])
  opens_countries :
      (n : ℕ) (s : Sockets)
      → Advances s open_countries
          (record s {
            country_listeners = s.country_listeners ++ listeners_from n s.fresh;
            fresh = s.fresh + n;
          })
          (map accept (listeners_from n s.fresh))
  begins_close : (s : Sockets) → Advances s close (record s { closed = true }) (close_main ∷ [])
  closes_main :
      (s : Sockets) → Advances s close_main (shut_main s.listener s) (close_countries ∷ [])
  closes_countries :
      (s : Sockets)
      → Advances s close_countries (record s { shut = s.country_listeners ++ s.shut }) []

-- The fields and the goroutines.
pub record Serving : Type 0 where
  pub sockets : Sockets
  pub threads : List Goroutine

pub data Step : Serving → Serving → Type 0 where
  runs :
      (before after : List Goroutine) (t : Goroutine) (ts : List Goroutine) (s s' : Sockets)
      → Advances s t s' ts
      → Step
          record { sockets = s; threads = before ++ (t ∷ after) }
          record { sockets = s'; threads = before ++ (ts ++ after) }
  -- a call of one of the methods
  arrives_listen :
      (ts : List Goroutine) (s : Sockets)
      → Step
          record { sockets = s; threads = ts }
          record { sockets = s; threads = ts ++ (listen ∷ []) }
  arrives_open :
      (ts : List Goroutine) (s : Sockets)
      → Step
          record { sockets = s; threads = ts }
          record { sockets = s; threads = ts ++ (open_countries ∷ []) }
  arrives_close :
      (ts : List Goroutine) (s : Sockets)
      → Step
          record { sockets = s; threads = ts }
          record { sockets = s; threads = ts ++ (close ∷ []) }

pub data Steps (x : Serving) : Serving → Type 0 where
  here : Steps x x
  next : {y z : Serving} → Steps x y → Step y z → Steps x z
