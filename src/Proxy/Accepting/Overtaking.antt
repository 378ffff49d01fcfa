-- ===== src/Proxy/Accepting/Overtaking.antt =====
-- A `Close` that comes too early (internal/proxy/server.go).
use mathlib.Core.List.{Memᴰ, append-nil, append_assoc}
use mathlib.Core.List.Memᴰ
use wg_proxy.Common.{ℕ, ◌≡◌, refl, true, some, List, [], ◌∷◌, ◌++◌, map}
use wg_proxy.Proxy.Accepting.{
  Sockets, no_sockets, listen, keep_listener, accept, close, close_main, close_countries, listens,
  keeps_listener, accepts, begins_close, closes_main, closes_countries, Serving, runs,
  arrives_listen, arrives_close, Steps, here, next,
}
use wg_proxy.Proxy.Accepting.Ending.{Progress, stays, goes}

-- An accept loop on an open listener takes what comes.
accept_all :
    (x : Serving) (conns : List ℕ) (l : ℕ) (s : Sockets)
    → s.shut ≡ []
    → Progress x record { sockets = s; threads = accept l ∷ [] }
    → Progress x record {
      sockets = record s { handled = s.handled ++ map (λ c. (l, c)) conns };
      threads = accept l ∷ [];
    }
accept_all x [] l s e r = rw append-nil r
accept_all x (c ∷ cs) l s e r =
    let one = record s { handled = s.handled ++ ((l, c) ∷ []) } in
    let open_still : ¬ Memᴰ l s.shut = λ m. Memᴰ.not-nil (rw e at m) in
    rw (← append_assoc s.handled ((l, c) ∷ []) (map (λ c. (l, c)) cs)) (
      accept_all x cs l one e
        (goes [] [] (accept l) (accept l ∷ []) s one r (accepts c l s open_still)))

abbrev with_listener : Sockets
with_listener = record no_sockets { fresh = 1 }

abbrev flagged : Sockets
flagged = record with_listener { closed = true }

abbrev too_late : Sockets
too_late = record flagged { listener = some 0 }

-- `Close` overtakes `ListenAndServe`, which has its listener, but has not kept it yet.
overtaken :
    Steps
      record { sockets = no_sockets; threads = [] }
      record { sockets = too_late; threads = accept 0 ∷ [] }
overtaken =
    let s1 = next here (arrives_listen [] no_sockets) in
    let s2 =
      next s1
        (runs [] [] listen (keep_listener 0 ∷ []) no_sockets with_listener (listens no_sockets)) in
    let s3 = next s2 (arrives_close (keep_listener 0 ∷ []) with_listener) in
    let s4 = next s3 (
      runs (keep_listener 0 ∷ []) [] close (close_main ∷ []) with_listener flagged
        (begins_close with_listener)) in
    let s5 = next s4 (
      runs (keep_listener 0 ∷ []) [] close_main (close_countries ∷ []) flagged flagged
        (closes_main flagged)) in
    let s6 = next s5 (
      runs (keep_listener 0 ∷ []) [] close_countries [] flagged flagged
        (closes_countries flagged)) in
    next s6
      (runs [] [] (keep_listener 0) (accept 0 ∷ []) flagged too_late (keeps_listener 0 flagged))

-- A new server can come, with one call of `ListenAndServe` and one of `Close`, to a state in which
-- `Close` has returned and nothing was accepted, but the listener of the accept loop that is left
-- is not shut, and is the only one that was made: from there on, with no further call, the loop
-- accepts any connections, as many as come.
pub Steps-closed_accepts :
    (conns : List ℕ)
    → (s : Sockets) × Steps
        record { sockets = no_sockets; threads = [] }
        record { sockets = s; threads = accept 0 ∷ [] }
      × (s.closed ≡ true)
      × (s.handled ≡ [])
      × (s.fresh ≡ 1)
      × (s.listener ≡ some 0)
      × ¬ Memᴰ 0 s.shut
      × Progress
          record { sockets = s; threads = accept 0 ∷ [] }
          record {
            sockets = record s { handled = map (λ c. (0, c)) conns };
            threads = accept 0 ∷ [];
          }
Steps-closed_accepts conns = (
  too_late,
  overtaken,
  refl,
  refl,
  refl,
  refl,
  λ m. Memᴰ.not-nil m,
  accept_all _ conns 0 too_late refl stays,
)
