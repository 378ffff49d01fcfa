-- ===== src/Health/Lifecycle/Ending.antt =====
-- How the loops of the health checker end (internal/health/checker.go).
use mathlib.Core.Path.{subst}
use mathlib.Core.List.{append_assoc, append-nil}
use wg_proxy.Common.{◌≡◌, refl, sym, ◌∙◌, true, List, [], ◌∷◌, ◌++◌, All, All-append, arith}
use wg_proxy.Health.Lifecycle.{
  Shared, CheckerThread, at_add, at_go, first_round, selecting, tick_round, returning, at_close,
  at_wait, Moves, adds, launches, checks_first, checks_tick, takes_stop, is_done, has_waited, Life,
  Steps,
}
use wg_proxy.Health.Lifecycle.Stopping.{working, IsCounted, run-IsCounted, Steps-IsCounted, idle}

-- The goroutines that are there go on, and no method is called.
pub data Continues (x : Life) : Life → Type 0 where
  stays : Continues x x
  goes :
      (before after : List CheckerThread) (t : CheckerThread) (ts : List CheckerThread)
      (s s' : Shared)
      → Continues x record { shared = s; threads = before ++ (t ∷ after) }
      → Moves s t s' ts
      → Continues x record { shared = s'; threads = before ++ (ts ++ after) }

Continues-IsCounted : {x y : Life} → Continues x y → IsCounted x → IsCounted y
Continues-IsCounted stays h = h
Continues-IsCounted (goes before after t ts s s' p r) h =
    run-IsCounted before after t ts s s' r (Continues-IsCounted p h)

-- A goroutine that is not at the `close` of `Stop`.
abbrev pub IsBound : CheckerThread → Type 0
IsBound at_close = ⊥
IsBound _ = Unit {0}

abbrev IsWaiting : CheckerThread → Type 0
IsWaiting t = t ≡ at_wait

module _ (x : Life) where
  At : Shared → List CheckerThread → Type 0
  At s ts = (s.stopped ≡ true) × Continues x record { shared = s; threads = ts }

  -- One goroutine is gone.
  Gone : List CheckerThread → List CheckerThread → Type 0
  Gone before after = (s : Shared) × At s (before ++ after)

  module _ (before after : List CheckerThread) where
    from_returning : (s : Shared) → At s (before ++ (returning ∷ after)) → Gone before after
    unfolding At Gone
    from_returning s (e, p) = (_, (e, goes before after returning [] s _ p (is_done s)))

    from_selecting : (s : Shared) → At s (before ++ (selecting ∷ after)) → Gone before after
    unfolding At
    from_selecting s (e, p) =
        from_returning _ (e, goes before after selecting _ s _ p (takes_stop s e))

    from_tick_round : (s : Shared) → At s (before ++ (tick_round ∷ after)) → Gone before after
    unfolding At
    from_tick_round s (e, p) =
        from_selecting _ (e, goes before after tick_round _ s _ p (checks_tick s))

    from_first_round : (s : Shared) → At s (before ++ (first_round ∷ after)) → Gone before after
    unfolding At
    from_first_round s (e, p) =
        from_selecting _ (e, goes before after first_round _ s _ p (checks_first s))

    from_launch : (s : Shared) → At s (before ++ (at_go ∷ after)) → Gone before after
    unfolding At
    from_launch s (e, p) = from_first_round _ (e, goes before after at_go _ s _ p (launches s))

    from_start : (s : Shared) → At s (before ++ (at_add ∷ after)) → Gone before after
    unfolding At
    from_start s (e, p) = from_launch _ (e, goes before after at_add _ s _ p (adds s))

  -- Only calls of `Stop` are left, at `wg.Wait`.
  Drained : Type 0
  Drained = (s : Shared) × (ts : List CheckerThread) × At s ts × All IsWaiting ts

  drain :
      (before after : List CheckerThread) (s : Shared)
      → All IsWaiting before
      → All IsBound after
      → At s (before ++ after)
      → Drained
  unfolding Drained Gone
  drain before [] s w b a = (s, before, rw append-nil at a, w)
  drain before (at_close ∷ after) s w (k, b) a = absurd k
  drain before (at_wait ∷ after) s w (k, b) a =
      drain (before ++ (at_wait ∷ [])) after s
        (All-append IsWaiting before (at_wait ∷ []) w (refl, tt)) b
        (subst (At s) (sym (append_assoc before (at_wait ∷ []) after)) a)
  drain before (at_add ∷ after) s w (k, b) a =
      let (s', a') = from_start before after s a in drain before after s' w b a'
  drain before (at_go ∷ after) s w (k, b) a =
      let (s', a') = from_launch before after s a in drain before after s' w b a'
  drain before (first_round ∷ after) s w (k, b) a =
      let (s', a') = from_first_round before after s a in drain before after s' w b a'
  drain before (selecting ∷ after) s w (k, b) a =
      let (s', a') = from_selecting before after s a in drain before after s' w b a'
  drain before (tick_round ∷ after) s w (k, b) a =
      let (s', a') = from_tick_round before after s a in drain before after s' w b a'
  drain before (returning ∷ after) s w (k, b) a =
      let (s', a') = from_returning before after s a in drain before after s' w b a'

  release :
      (s : Shared) (ts : List CheckerThread)
      → All IsWaiting ts
      → s.wg ≡ 0
      → Continues x record { shared = s; threads = ts }
      → Continues x record { shared = s; threads = [] }
  release s [] w e p = p
  release s (t ∷ ts) (k, w) e p = release s ts w e (
      goes [] ts at_wait [] s s
        (subst (λ u. Continues x record { shared = s; threads = u ∷ ts }) k p) (has_waited s e))

working-IsWaiting : (ts : List CheckerThread) → All IsWaiting ts → working ts ≡ 0
working-IsWaiting [] w = refl
working-IsWaiting (t ∷ ts) (k, w) = rw k (omega (arith, working-IsWaiting ts w))

-- Let a new checker have come to a state, by any starts, stops and steps of its loops, where the
-- channel `stopCh` is closed and no other `Stop` is about to close it. Then no goroutine is stuck:
-- those that are there can go on to a state where each loop and each call has returned.
pub Steps-can_end :
    (x : Life)
    → Steps idle x
    → x.shared.stopped ≡ true
    → All IsBound x.threads
    → (s : Shared) × Continues x record { shared = s; threads = [] }
unfolding Drained At
Steps-can_end x xs e b =
    let (s, ts, (_, p), w) = drain x [] x.threads x.shared tt b (e, stays) in
    let counted = Continues-IsCounted p (Steps-IsCounted xs refl) in
    (s, release x s ts w (counted ∙ working-IsWaiting ts w) p)
