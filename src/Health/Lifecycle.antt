-- ===== src/Health/Lifecycle.antt =====
-- The start and the stop of the health checker (internal/health/checker.go): `Start`, `Stop` and
-- `loop` as goroutines. A step is one statement of one goroutine that the others can see; any
-- goroutine may be next. What a round of checks does is left to the module above.
pub mod Ending
pub mod Stopping
use wg_proxy.Common.{ℕ, suc, ◌+◌, ◌-◌, ◌≡◌, Bool, true, false, List, [], ◌∷◌, ◌++◌}

-- The fields `stopCh`, which is closed or not, and `wg` of a `Checker`, and the number of rounds of
-- checks.
pub record Shared : Type 0 where
  pub stopped : Bool
  pub wg : ℕ
  pub rounds : ℕ

-- `NewChecker`
abbrev pub unstarted_checker : Shared
unstarted_checker = record { stopped = false; wg = 0; rounds = 0 }

-- A goroutine, by what it does next.
pub data CheckerThread : Type 0 where
  -- `Start`: at `wg.Add`, and at the `go` statement
  at_add at_go : CheckerThread
  -- `loop`: at its first round, at its `select`, at the round of a tick, and at `wg.Done`
  first_round selecting tick_round returning : CheckerThread
  -- `Stop`: at `close`, and at `wg.Wait`
  at_close at_wait : CheckerThread

-- A step of one goroutine: the fields behind it, and the goroutines that go on. A second `Stop`
-- panics at `close`, and has no step there.
pub data Moves : Shared → CheckerThread → Shared → List CheckerThread → Type 0 where
  adds : (s : Shared) → Moves s at_add (record s { wg = suc s.wg }) (at_go ∷ [])
  launches : (s : Shared) → Moves s at_go s (first_round ∷ [])
  checks_first :
      (s : Shared) → Moves s first_round (record s { rounds = suc s.rounds }) (selecting ∷ [])
  takes_tick : (s : Shared) → Moves s selecting s (tick_round ∷ [])
  checks_tick :
      (s : Shared) → Moves s tick_round (record s { rounds = suc s.rounds }) (selecting ∷ [])
  takes_stop : (s : Shared) → s.stopped ≡ true → Moves s selecting s (returning ∷ [])
  is_done : (s : Shared) → Moves s returning (record s { wg = s.wg - 1 }) []
  closes :
      (s : Shared)
      → s.stopped ≡ false
      → Moves s at_close (record s { stopped = true }) (at_wait ∷ [])
  has_waited : (s : Shared) → s.wg ≡ 0 → Moves s at_wait s []

-- The fields and the goroutines.
pub record Life : Type 0 where
  pub shared : Shared
  pub threads : List CheckerThread

pub data Step : Life → Life → Type 0 where
  runs :
      (before after : List CheckerThread) (t : CheckerThread) (ts : List CheckerThread)
      (s s' : Shared)
      → Moves s t s' ts
      → Step
          record { shared = s; threads = before ++ (t ∷ after) }
          record { shared = s'; threads = before ++ (ts ++ after) }
  -- a call of one of the methods
  is_started :
      (ts : List CheckerThread) (s : Shared)
      → Step
          record { shared = s; threads = ts }
          record { shared = s; threads = ts ++ (at_add ∷ []) }
  is_stopped :
      (ts : List CheckerThread) (s : Shared)
      → Step
          record { shared = s; threads = ts }
          record { shared = s; threads = ts ++ (at_close ∷ []) }

pub data Steps (x : Life) : Life → Type 0 where
  here : Steps x x
  next : {y z : Life} → Steps x y → Step y z → Steps x z
