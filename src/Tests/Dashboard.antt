-- ===== src/Tests/Dashboard.antt =====
-- A dashboard with two clients.
use mathlib.Core.List.{Memᴰ, Permᴰ, Sublistᴰ}
use mathlib.Core.Quot
use wg_proxy.Common.{
  ℕ, ◌≢◌, ◌==◌, if◌then◌else◌, All-mem, ◌≡◌, refl, true, List, [], ◌∷◌, ◌++◌, map, All, arith,
}
use wg_proxy.Common.Bytes.{Bytes, codes}
use wg_proxy.Common.Errors.{GoError, external, ok, err}
use wg_proxy.Common.Strings.{split, has_prefix, trim_prefix}
use wg_proxy.Common.Ini.{is_line}
use wg_proxy.Health.{new_checker}
use wg_proxy.Handlers.Listing.{Rendering, stats_info}
use wg_proxy.Dashboard.{
  Client, new_client, offer, take_messages, Reach, begins, connects, broadcasts, receives,
  take_from, collect_state, tunnel_state,
}
use wg_proxy.Dashboard.Queues.{IsServed, Reach-IsServed, take_messages-offer}
use wg_proxy.Dashboard.Broadcast.{Channels, AreKeys, range_offer, broadcast, broadcast-offers}
use wg_proxy.Dashboard.Stream.{
  event, events, first_message, stream, handle_sse, read_events, handle_sse-read_events,
}
use wg_proxy.Dashboard.Totals.{collect_state-stats_info}
use wg_proxy.Tests.Tunnels.{world}

abbrev first : Bytes
first = codes "one"

abbrev second : Bytes
second = codes "two"

abbrev waiting : Client
waiting = record { queue = first ∷ []; written = [] }

abbrev log : List Bytes
log = first ∷ second ∷ []

-- The second client connects between the two messages.
abbrev both : List Client
both =
    record { queue = second ∷ []; written = [] }
    ∷ record { queue = first ∷ second ∷ []; written = [] }
    ∷ []

reached : Reach log both
unfolding offer
reached = broadcasts second (connects (broadcasts first (connects begins)))

Reach-IsServed_example : All (IsServed log) both
Reach-IsServed_example = Reach-IsServed reached

take_messages-offer_example :
    take_messages 2 (offer second waiting) ≡ record { queue = []; written = first ∷ second ∷ [] }
take_messages-offer_example = take_messages-offer second waiting (omega arith)

-- A client that has read one of its two messages.
abbrev reader : Client
reader = record { queue = second ∷ []; written = first ∷ [] }

reading : Reach log (reader ∷ [])
unfolding offer take_from
reading =
    receives [] [] record { queue = log; written = [] } reader
      (broadcasts second (broadcasts first (connects begins))) refl

events_example : read_events (events log) ≡ log
unfolding read_events events event split has_prefix trim_prefix
events_example = refl

handle_sse-read_events_example :
    (body : Bytes) × (handle_sse true (ok second) (first ∷ []) ≡ stream body)
    × (read_events body ≡ second ∷ first ∷ [])
    × Sublistᴰ (first ∷ []) log
unfolding first_message is_line
handle_sse-read_events_example =
    handle_sse-read_events {log = log} {cs = reader ∷ []} (ok second) reader (refl, tt)
      (refl, (refl, tt)) reading (Memᴰ.head refl)

-- Three channels, the last of which is full; the fourth is not among the clients.
abbrev channels : Channels
channels n =
    if n == 0
    then waiting
    else if n == 2
    then record { queue = log ++ (log ++ (log ++ log)); written = [] }
    else new_client

abbrev uncoded : GoError
uncoded = external (codes "json: unsupported value")

absent : (k : ℕ) (ks : List ℕ) → All (λ l. k ≢ l) ks → ¬ Memᴰ k ks
absent k ks h m = All-mem (λ l. k ≢ l) ks h m refl

keys : AreKeys (0 ∷ 1 ∷ 2 ∷ [])
keys = (
  absent 0 (1 ∷ 2 ∷ []) (λ e. omega (arith, e), (λ e. omega (arith, e), tt)),
  (absent 1 (2 ∷ []) (λ e. omega (arith, e), tt), (absent 2 [] tt, tt)),
)

broadcast-offers_example :
    (map (broadcast (ok second) (Quot.mk (0 ∷ 1 ∷ 2 ∷ [])) channels) (0 ∷ 1 ∷ 2 ∷ [])
      ≡ map (offer second) (map channels (0 ∷ 1 ∷ 2 ∷ [])))
    × ((j : ℕ)
        → ¬ Memᴰ j (0 ∷ 1 ∷ 2 ∷ [])
        → broadcast (ok second) (Quot.mk (0 ∷ 1 ∷ 2 ∷ [])) channels j ≡ channels j)
    × ((ls : List ℕ)
        → Permᴰ (0 ∷ 1 ∷ 2 ∷ []) ls
        → range_offer second ls channels
          ≡ broadcast (ok second) (Quot.mk (0 ∷ 1 ∷ 2 ∷ [])) channels)
    × (broadcast (err uncoded) (Quot.mk (0 ∷ 1 ∷ 2 ∷ [])) channels ≡ channels)
broadcast-offers_example = broadcast-offers second uncoded (0 ∷ 1 ∷ 2 ∷ []) channels keys

abbrev pub plain : ℕ → Bytes
plain n = codes "t"

abbrev pub rendering : Rendering
rendering = record { latency_text = plain; uptime_text = plain; time_text = λ t. codes "now" }

collect_state-stats_info_example :
    ((collect_state plain world new_checker).sums.bytes_in
      ≡ (stats_info rendering world new_checker).total_bytes_in)
    × ((collect_state plain world new_checker).sums.bytes_out
        ≡ (stats_info rendering world new_checker).total_bytes_out)
    × ((collect_state plain world new_checker).sums.conns
        ≡ (stats_info rendering world new_checker).total_conns)
    × ((stats_info rendering world new_checker).total_bytes_in ≡ 21)
    × ((stats_info rendering world new_checker).total_bytes_out ≡ 15)
    × ((stats_info rendering world new_checker).total_conns ≡ 3)
    × ((collect_state plain world new_checker).sums.tunnels
        ≡ map (λ p. tunnel_state plain (world.cells p)) world.tunnels)
collect_state-stats_info_example = collect_state-stats_info plain rendering world new_checker
