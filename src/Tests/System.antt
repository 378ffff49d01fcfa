-- ===== src/Tests/System.antt =====
-- Goroutines of the manager with three tunnels, and of a new one.
use wg_proxy.Common.{◌<◌, ◌≤◌, ◌≡◌, refl, none, [], ◌∷◌, arith}
use wg_proxy.Common.Bytes.{Bytes, codes, bytes_eq}
use wg_proxy.Tunnels.{running, disconnected}
use wg_proxy.Tunnels.Manager.{World, new_manager, append_tunnel, mem_closed, find_named}
use wg_proxy.Tunnels.Manager.Actions.{import_config}
use wg_proxy.System.{
  wait, begin, imports, System, Steps, runs, arrives, here, next, serve, relay_in, relay_out,
  counts, has_sent, has_received, is_picked, change, count_conn, count_in, count_out, Goes,
  to_disconnect, probe, stop,
}
use wg_proxy.System.Traffic.{Same64, counters, plus, account, Steps-counters}
use wg_proxy.System.Validity.{initial, Steps-ports}
use wg_proxy.System.Stability.{IsStable, Steps-IsStable}
use wg_proxy.System.Races.{Steps-disconnected_running}
use wg_proxy.Tests.Data.{cells}
use wg_proxy.Tests.Tunnels.{host, world}

abbrev quote : Bytes → Bytes
quote s = s

abbrev new : World
new = new_manager (codes "/c") 10001 cells

abbrev one : World
one = (import_config host none (codes "fr-1") (codes "key") new).0

abbrev two : World
two = (import_config host none (codes "fr-2") (codes "key") one).0

abbrev after_one : System quote
after_one = record { world = one; threads = begin 0 ∷ [] }

abbrev after_two : System quote
after_two = record { world = two; threads = begin 0 ∷ begin 1 ∷ [] }

reached_one : Steps quote host (initial quote (codes "/c") 10001 cells) after_one
unfolding import_config append_tunnel new_manager
reached_one =
    next here
      (arrives [] (begin 0 ∷ []) new one (imports (codes "fr-1") (codes "key") new (omega arith)))

reached_two : Steps quote host (initial quote (codes "/c") 10001 cells) after_two
unfolding import_config append_tunnel new_manager
reached_two = next reached_one (
    arrives (begin 0 ∷ []) (begin 1 ∷ []) one two
      (imports (codes "fr-2") (codes "key") one (omega arith)))

Steps-ports_example :
    (two.base_port ≤ (two.cells 0).proxy_port)
    × ((two.cells 0).proxy_port < (two.cells 1).proxy_port)
unfolding import_config append_tunnel new_manager
Steps-ports_example =
    Steps-ports quote host (codes "/c") 10001 cells after_two 0 1 0 1 reached_two (omega arith) refl
      refl

Steps-IsStable_example : IsStable new two
Steps-IsStable_example = Steps-IsStable quote reached_two

Steps-disconnected_running_example :
    Steps quote host
      record { world = world; threads = wait 0 ∷ [] }
      record { world = world; threads = wait 0 ∷ probe 0 ∷ stop 0 to_disconnect ∷ [] }
    × ((u v : World) × Goes quote
          record { world = world; threads = wait 0 ∷ probe 0 ∷ stop 0 to_disconnect ∷ [] }
          record { world = u; threads = probe 0 ∷ [] }
        × ((u.cells 0).status ≡ disconnected)
        × Goes quote record { world = u; threads = probe 0 ∷ [] } record { world = v; threads = [] }
        × ((v.cells 0).status ≡ running)
        × ((v.cells 0).cmd ≡ none))
unfolding find_named bytes_eq mem_closed
Steps-disconnected_running_example =
    Steps-disconnected_running quote host (codes "us-1") 0 4321 9 5000 40 world refl (omega arith)
      refl refl refl refl

-- A connection through the tunnel 0, which sends 5 bytes and receives 7.
abbrev counted : World
counted = change count_conn 0 world

abbrev sent : World
sent = change (count_out 5) 0 counted

abbrev received : World
received = change (count_in 7) 0 sent

connection :
    Steps quote host
      record { world = world; threads = [] }
      record { world = received; threads = [] }
connection =
    let s1 =
      next here (arrives [] (serve 0 ∷ []) world world (is_picked 0 world (omega arith) refl)) in
    let s2 = next s1 (runs [] [] (serve 0) _ world counted (counts 0 world)) in
    let s3 =
      next s2 (runs [] (relay_in 0 ∷ []) (relay_out 0) _ counted sent (has_sent 5 0 counted)) in
    next s3 (runs [] [] (relay_in 0) _ sent received (has_received 7 0 sent))

Steps-counters_example :
    Same64
      (counters (received.cells 0))
      (plus (counters (world.cells 0)) (account quote 0 connection))
Steps-counters_example = Steps-counters quote 0 connection (omega arith)

-- One connection, 5 bytes out and 7 in.
account_test : account quote 0 connection ≡ record { conns = 1; inward = 7; outward = 5 }
unfolding connection
account_test = refl
