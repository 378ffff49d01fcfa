-- ===== src/Tests/Tunnels.antt =====
-- A manager with three tunnels.
use wg_proxy.Common.{
  ℕ, ◌+◌, ◌≡◌, ◌≢◌, refl, Bool, true, false, none, some, List, [], ◌∷◌, ◌++◌, arith, length,
}
use wg_proxy.Common.Bytes.{Bytes, codes, bytes_eq, bytes_eq_iff}
use wg_proxy.Tunnels.{error, disconnected}
use wg_proxy.Tunnels.Manager.{Host, World, find_named, get_tunnel, mem_closed, reap}
use wg_proxy.Tunnels.Manager.Actions.{in_time, too_late, removed, stop_tunnel, disconnect, delete}
use wg_proxy.Tunnels.Manager.Validity.{IsValid}
use wg_proxy.Tunnels.Manager.Lookup.{IsUnique, delete-get_tunnel}
use wg_proxy.Tunnels.Manager.Lifecycle.{disconnect-too_late}
use wg_proxy.Tests.Data.{cells, listed}

-- Paths joined by a slash, and upper case left out.
abbrev pub host : Host
host = record {
  join = λ a b. a ++ (b'/' ∷ b);
  to_upper = λ s. s;
  quote = λ s. b'"' ∷ (s ++ (b'"' ∷ []));
}

abbrev pub world : World
world = record {
  tunnels = listed;
  config_dir = codes "/c";
  base_port = 10001;
  next_port = 10004;
  cells = cells;
  fresh = 3;
  closed = [];
  spawned = [];
  calls = [];
}

pub world-IsValid : IsValid world
world-IsValid = (
  omega arith,
  omega arith,
  (omega arith, omega arith, (omega arith, omega arith, (omega arith, omega arith))),
)

abbrev entries : List (Bytes × Bool)
entries = (codes "fr-1.conf", false) ∷ (codes "old", true) ∷ (codes "x.txt", false) ∷ []

look_up : get_tunnel world (codes "de-1") ≡ some 1
unfolding find_named bytes_eq
look_up = refl

-- What the deletion of the tunnel "de-1" leaves, whose process ends in time.
deletion :
    (w : World) × (delete host.quote (in_time none) removed (codes "de-1") world ≡ some (w, none))
unfolding delete find_named bytes_eq stop_tunnel reap
deletion = (_, refl)

one_of_the_name : IsUnique cells (codes "de-1") listed
unfolding find_named bytes_eq
one_of_the_name = (λ e. cc, (λ e. refl, (λ e. refl, tt)))

delete-get_tunnel_example :
    (get_tunnel deletion.0 (codes "de-1") ≡ none)
    × (length deletion.0.tunnels + 1 ≡ length world.tunnels)
delete-get_tunnel_example =
    delete-get_tunnel host.quote (in_time none) removed (codes "de-1") world deletion.0 1 look_up
      deletion.1 one_of_the_name

other_name : codes "us-1" ≢ codes "de-1"
unfolding bytes_eq
other_name = λ e. differs ((bytes_eq_iff (codes "us-1") (codes "de-1")).1 e)
  where
    differs : ¬ (bytes_eq (codes "us-1") (codes "de-1") ≡ true)
    differs e = cc

nothing_closed : (c : ℕ) → mem_closed c [] ≡ false
unfolding mem_closed
nothing_closed c = refl

disconnect-too_late_example :
    (w1 : World) × (w2 : World) × (disconnect host.quote too_late (codes "de-1") world
      ≡ some (w1, none))
    × ((w1.cells 1).status ≡ disconnected)
    × (reap host.quote none 1 w1 ≡ some w2)
    × ((w2.cells 1).status ≡ error)
disconnect-too_late_example =
    disconnect-too_late host.quote (codes "de-1") none 1 4321 9 world look_up refl refl
      (nothing_closed 9)
