-- ===== src/Tests/Health.antt =====
-- Rounds of the health checker.
use wg_proxy.Common.{
  ℕ, suc, ◌+◌, ◌/◌, ◌<◌, ◌≡◌, refl, Bool, true, false, none, some, get_elem?, replicate, List, [],
  ◌∷◌, ◌==◌, if◌then◌else◌, length, arith,
}
use wg_proxy.Common.Bytes.{Bytes, codes, bytes_eq}
use wg_proxy.Common.Errors.{external, Result, ok, err}
use wg_proxy.Tunnels.{running, unhealthy}
use wg_proxy.Proxy.Picker.{healthy}
use wg_proxy.Health.{new_checker, check_all, deep_check_all}
use wg_proxy.Health.Loop.{Meeting, loop, loop-counts}
use wg_proxy.Health.ExitIp.{blind_read, dial_exit, address_in, exit_ip_of, https_probe}
use wg_proxy.Health.ExitIp.Outcomes.{exit_ip_of-answer}
use wg_proxy.Proxy.Conn.{Incoming, read, copy}
use wg_proxy.Proxy.Socks.{reply, succeeded}
use wg_proxy.Common.Strings.{trim_space}
use wg_proxy.Health.Rounds.{after_round, check_all-cells, check_all-count}
use wg_proxy.Tests.Tunnels.{world, world-IsValid}

abbrev quote : Bytes → Bytes
quote s = s

-- Port 10001 refuses, and the others take a connection in 40 ns.
abbrev dial : ℕ → Result ℕ
dial port = if port == 10001 then err (external (codes "refused")) else ok 40

abbrev clock : ℕ → ℕ
clock p = 3000 + p

round_tests :
    (((check_all quote dial clock 4000 world new_checker).0.cells 0).status ≡ unhealthy)
    × (((check_all quote dial clock 4000 world new_checker).0.cells 1).status ≡ running)
    × ((check_all quote dial clock 4000 world new_checker).1.stats.healthy_count ≡ 2)
    × ((check_all quote dial clock 4000 world new_checker).1.stats.avg_latency ≡ 40)
    × ((check_all quote dial clock 4000 world new_checker).1.deep_checks ≡ 1)
unfolding check_all new_checker
round_tests = (refl, refl, refl, refl, refl)

check_all-cells_example :
    (check_all quote dial clock 4000 world new_checker).0.cells 2
    ≡ after_round quote dial clock 2 (world.cells 2)
check_all-cells_example =
    check_all-cells quote dial clock 4000 world new_checker 2 2 world-IsValid refl

check_all-count_example :
    (check_all quote dial clock 4000 world new_checker).1.stats.healthy_count
    ≡ length (
        healthy
          (check_all quote dial clock 4000 world new_checker).0.cells
          (check_all quote dial clock 4000 world new_checker).0.tunnels)
check_all-count_example =
    check_all-count quote dial clock 4000 world new_checker world-IsValid (omega arith)

abbrev https : ℕ → Bool
https port = port == 10003

abbrev in_order : List ℕ → List ℕ
in_order ports = ports

gold_pool : (deep_check_all https in_order world new_checker).gold_ports ≡ 10003 ∷ []
unfolding deep_check_all
gold_pool = refl

abbrev meeting : Meeting
meeting = record { world = world; dial = dial; clock = clock; now = 4000 }

-- The first round and six ticks start two deep checks.
loop-counts_example :
    ((loop quote meeting (replicate 6 meeting) new_checker).stats.total_checks
      ≡ suc (length (replicate 6 meeting)))
    × ((loop quote meeting (replicate 6 meeting) new_checker).deep_checks
        ≡ length (replicate 6 meeting) / 5 + 1)
loop-counts_example = loop-counts quote meeting (replicate 6 meeting) (omega arith)

-- A proxy that takes the greeting and the request, and the answer of the web server.
abbrev stream : Incoming
stream = (5 ∷ 0 ∷ []) ∷ reply succeeded ∷ codes "192.0.2.7\n" ∷ []

-- A client that returns the stream as the body of the response.
abbrev http_get : Result Incoming → Result (Result Bytes)
http_get (ok c) = ok (ok (copy c))
http_get (err e) = err e

exit_ip_of-answer_example :
    ((code : ℕ)
      → get_elem? (reply succeeded) 1 ≡ some code
      → exit_ip_of http_get (ok stream)
        ≡ some (if code == 0 then address_in (http_get (ok (codes "192.0.2.7\n" ∷ []))) else none))
    × (length (reply succeeded) < 2
        → exit_ip_of http_get (ok stream)
          ≡ some (address_in (http_get (ok (codes "192.0.2.7\n" ∷ [])))))
unfolding blind_read read
exit_ip_of-answer_example =
    exit_ip_of-answer http_get (λ e. refl) stream (codes "192.0.2.7\n" ∷ []) (reply succeeded) refl

exit_ip : exit_ip_of http_get (ok stream) ≡ some (some (codes "192.0.2.7"))
unfolding exit_ip_of dial_exit blind_read read trim_space
exit_ip = refl

-- What curl prints for the status code.
https_tests : (https_probe (ok (codes "200\n")) ≡ true) × (https_probe (ok (codes "503")) ≡ false)
unfolding https_probe trim_space bytes_eq
https_tests = (refl, refl)
