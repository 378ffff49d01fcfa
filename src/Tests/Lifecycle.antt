-- ===== src/Tests/Lifecycle.antt =====
-- A health checker that is stopped while its loop waits for a tick.
use wg_proxy.Common.{◌≡◌, refl, true, false, [], ◌∷◌, All}
use wg_proxy.Health.Lifecycle.{
  Shared, unstarted_checker, at_add, at_go, first_round, selecting, returning, at_close, at_wait,
  adds, launches, checks_first, takes_stop, is_done, closes, has_waited, Life, Steps, here, next,
  runs, is_started, is_stopped,
}
use wg_proxy.Health.Lifecycle.Stopping.{is_working, idle, Steps-stopped}
use wg_proxy.Health.Lifecycle.Ending.{Continues, Steps-can_end}

abbrev counted : Shared
counted = record { stopped = false; wg = 1; rounds = 0 }

abbrev first_checked : Shared
first_checked = record { stopped = false; wg = 1; rounds = 1 }

abbrev shut : Shared
shut = record { stopped = true; wg = 1; rounds = 1 }

abbrev ended : Shared
ended = record { stopped = true; wg = 0; rounds = 1 }

abbrev being_stopped : Life
being_stopped = record { shared = shut; threads = selecting ∷ at_wait ∷ [] }

begun : Steps idle record { shared = first_checked; threads = selecting ∷ [] }
begun =
    next
      (next
        (next (next here (is_started [] unstarted_checker))
          (runs [] [] at_add (at_go ∷ []) unstarted_checker counted (adds unstarted_checker)))
        (runs [] [] at_go (first_round ∷ []) counted counted (launches counted)))
      (runs [] [] first_round (selecting ∷ []) counted first_checked (checks_first counted))

reached : Steps idle being_stopped
reached = next (next begun (is_stopped (selecting ∷ []) first_checked)) (
    runs (selecting ∷ []) [] at_close (at_wait ∷ []) first_checked shut (closes first_checked refl))

returned : Steps idle record { shared = ended; threads = at_wait ∷ [] }
returned =
    next
      (next reached
        (runs [] (at_wait ∷ []) selecting (returning ∷ []) shut shut (takes_stop shut refl)))
      (runs [] (at_wait ∷ []) returning [] shut ended (is_done shut))

Steps-stopped_example : All (λ t. is_working t ≡ false) []
Steps-stopped_example = Steps-stopped [] [] [] ended ended returned (has_waited ended refl)

Steps-can_end_example : (s : Shared) × Continues being_stopped record { shared = s; threads = [] }
Steps-can_end_example = Steps-can_end being_stopped reached refl (tt, (tt, tt))
