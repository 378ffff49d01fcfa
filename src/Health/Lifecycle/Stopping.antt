-- ===== src/Health/Lifecycle/Stopping.antt =====
-- What `Stop` waits for (internal/health/checker.go).
use wg_proxy.Common.{
  ℕ, ◌+◌, ◌≡◌, refl, ◌∙◌, Bool, true, false, List, [], ◌∷◌, ◌++◌, if◌then◌else◌, Bool-cases, inl,
  inr, All, arith,
}
use wg_proxy.Health.Lifecycle.{
  Shared, unstarted_checker, CheckerThread, at_add, at_go, first_round, selecting, tick_round,
  returning, at_close, at_wait, Moves, adds, launches, checks_first, takes_tick, checks_tick,
  takes_stop, is_done, closes, has_waited, Life, Step, runs, is_started, is_stopped, Steps, here,
  next,
}

-- A loop that has not returned, or that is about to be launched.
abbrev pub is_working : CheckerThread → Bool
is_working at_add = false
is_working at_go = true
is_working first_round = true
is_working selecting = true
is_working tick_round = true
is_working returning = true
is_working at_close = false
is_working at_wait = false

abbrev pub working : List CheckerThread → ℕ
working [] = 0
working (t ∷ ts) = (if is_working t then 1 else 0) + working ts

pub working-append : (ts us : List CheckerThread) → working (ts ++ us) ≡ working ts + working us
working-append [] us = omega arith
working-append (t ∷ ts) us = omega (arith, working-append ts us)

Moves-working :
    {s s' : Shared} {t : CheckerThread} {ts : List CheckerThread} (n : ℕ)
    → Moves s t s' ts
    → s.wg ≡ working (t ∷ []) + n
    → s'.wg ≡ working ts + n
Moves-working n (adds s) h = omega arith
Moves-working n (launches s) h = h
Moves-working n (checks_first s) h = h
Moves-working n (takes_tick s) h = h
Moves-working n (checks_tick s) h = h
Moves-working n (takes_stop s e) h = h
Moves-working n (is_done s) h = omega arith
Moves-working n (closes s e) h = h
Moves-working n (has_waited s e) h = h

-- `wg` counts the loops that have not returned.
abbrev pub IsCounted : Life → Type 0
IsCounted x = x.shared.wg ≡ working x.threads

pub run-IsCounted :
    (before after : List CheckerThread) (t : CheckerThread) (ts : List CheckerThread)
    (s s' : Shared)
    → Moves s t s' ts
    → IsCounted record { shared = s; threads = before ++ (t ∷ after) }
    → IsCounted record { shared = s'; threads = before ++ (ts ++ after) }
run-IsCounted before after t ts s s' r h =
    let at_step =
      Moves-working (working before + working after) r
        (h ∙ (working-append before (t ∷ after) ∙ omega arith)) in
    omega (arith, at_step, working-append before (ts ++ after), working-append ts after)

Step-IsCounted : {x y : Life} → Step x y → IsCounted x → IsCounted y
Step-IsCounted (runs before after t ts s s' r) h = run-IsCounted before after t ts s s' r h
Step-IsCounted (is_started ts s) h = omega (arith, h, working-append ts (at_add ∷ []))
Step-IsCounted (is_stopped ts s) h = omega (arith, h, working-append ts (at_close ∷ []))

pub Steps-IsCounted : {x y : Life} → Steps x y → IsCounted x → IsCounted y
Steps-IsCounted here h = h
Steps-IsCounted (next xs r) h = Step-IsCounted r (Steps-IsCounted xs h)

none_working : (ts : List CheckerThread) → working ts ≡ 0 → All (λ t. is_working t ≡ false) ts
none_working [] h = tt
none_working (t ∷ ts) h = elim (Bool-cases (is_working t)) [
  | inl busy ↦ absurd (omega (arith, rw busy at h))
  | inr free ↦ (free, none_working ts (omega (arith, rw free at h)))
]

abbrev pub idle : Life
idle = record { shared = unstarted_checker; threads = [] }

-- In every interleaving of starts, stops and loops of a new checker, a `Stop` returns only where no
-- loop is left: none is in a round of checks, is about to begin one, or waits for its next tick.
pub Steps-stopped :
    (before after ts : List CheckerThread) (s s' : Shared)
    → Steps idle record { shared = s; threads = before ++ (at_wait ∷ after) }
    → Moves s at_wait s' ts
    → All (λ t. is_working t ≡ false) (before ++ (ts ++ after))
Steps-stopped before after _ _ _ xs (has_waited s e) =
    let counted = Steps-IsCounted xs refl in
    none_working (before ++ after) (
      omega
        (arith, counted, e, working-append before (at_wait ∷ after), working-append before after))
