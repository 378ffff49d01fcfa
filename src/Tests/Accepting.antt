-- ===== src/Tests/Accepting.antt =====
-- Accept loops: a server that is closed while it serves, and a retrying proxy with two clients.
use mathlib.Core.List.{Memᴰ}
use wg_proxy.Common.{
  ◌%◌, ◌^◌, ◌≡◌, refl, inl, inr, true, none, some, List, [], ◌∷◌, map, length, arith, All,
}
use wg_proxy.Common.Bytes.{codes}
use wg_proxy.Common.Errors.{external, Result, ok, err}
use wg_proxy.Proxy.Accepting.{
  Sockets, no_sockets, Goroutine, accept, failed, close, close_main, close_countries, begins_close,
  closes_main, closes_countries, accept_fails, Serving, Steps,
}
use wg_proxy.Proxy.Accepting.Ending.{Progress, stays, goes, IsEnding, Progress-IsEnding}
use wg_proxy.Proxy.Accepting.Overtaking.{Steps-closed_accepts}
use wg_proxy.Proxy.Retry.Accepting.{Arrival, Accepted, new_counters, listen_and_serve, proxy_stats}
use wg_proxy.Proxy.Retry.Accepting.Statistics.{
  accepted, first_error, total_length, listen_and_serve-stats,
}
use wg_proxy.Tests.Retry.{client, dial, ports}

-- A server with a listener of its own and one for a country.
abbrev serving : Sockets
serving = record no_sockets { listener = some 0; country_listeners = 1 ∷ []; fresh = 2 }

abbrev loops : List Goroutine
loops = accept 0 ∷ accept 1 ∷ []

abbrev flagged : Sockets
flagged = record serving { closed = true }

abbrev main_shut : Sockets
main_shut = record flagged { shut = 0 ∷ [] }

abbrev all_shut : Sockets
all_shut = record main_shut { shut = 1 ∷ 0 ∷ [] }

abbrev after_close : Serving
after_close = record { sockets = all_shut; threads = failed 0 ∷ accept 1 ∷ [] }

closing : Progress record { sockets = serving; threads = close ∷ loops } after_close
closing =
    let s1 = goes [] loops close (close_main ∷ []) serving flagged stays (begins_close serving) in
    let s2 =
      goes [] loops close_main (close_countries ∷ []) flagged main_shut s1 (closes_main flagged) in
    let s3 = goes [] loops close_countries [] main_shut all_shut s2 (closes_countries main_shut) in
    goes [] (accept 1 ∷ []) (accept 0) (failed 0 ∷ []) all_shut all_shut s3
      (accept_fails 0 all_shut)

Progress-IsEnding_example : All (IsEnding all_shut) (failed 0 ∷ accept 1 ∷ [])
Progress-IsEnding_example =
    Progress-IsEnding loops serving after_close (inl refl, (inr (Memᴰ.head refl), tt)) closing
      (refl, (refl, tt))

Steps-closed_accepts_example :
    (s : Sockets) × Steps
      record { sockets = no_sockets; threads = [] }
      record { sockets = s; threads = accept 0 ∷ [] }
    × (s.closed ≡ true)
    × (s.handled ≡ [])
    × (s.fresh ≡ 1)
    × (s.listener ≡ some 0)
    × ¬ Memᴰ 0 s.shut
    × Progress
        record { sockets = s; threads = accept 0 ∷ [] }
        record {
          sockets = record s { handled = map (λ c. (0, c)) (7 ∷ 8 ∷ []) };
          threads = accept 0 ∷ [];
        }
Steps-closed_accepts_example = Steps-closed_accepts (7 ∷ 8 ∷ [])

abbrev arrival : Arrival
arrival = record {
  sends = client;
  gold = [];
  backends = ports;
  dial = dial;
  takes = none;
  client_takes = some 1;
}

abbrev accepts : List (Result Arrival)
accepts = ok arrival ∷ ok arrival ∷ err (external (codes "closed")) ∷ []

listen_and_serve-stats_example :
    (s : Accepted) × (listen_and_serve none accepts new_counters ≡ some s)
    × (s.result ≡ first_error accepts)
    × (length s.served ≡ length (accepted accepts))
    × ((proxy_stats s.counters).0 % 2 ^ 64 ≡ length (accepted accepts) % 2 ^ 64)
    × ((proxy_stats s.counters).1 % 2 ^ 64 ≡ total_length (λ r. r.relayed_in) s.served % 2 ^ 64)
    × ((proxy_stats s.counters).2 % 2 ^ 64 ≡ total_length (λ r. r.relayed_out) s.served % 2 ^ 64)
listen_and_serve-stats_example = listen_and_serve-stats accepts (omega arith)
