-- ===== src/Health/Loop.antt =====
-- The goroutine of the health checker (internal/health/checker.go): `Checker.loop`.
use wg_proxy.Common.{ℕ, suc, ◌+◌, ◌/◌, ◌^◌, ◌<◌, ◌≡◌, List, [], ◌∷◌, length, arith}
use wg_proxy.Common.Bytes.{Bytes}
use wg_proxy.Common.Errors.{Result}
use wg_proxy.Tunnels.Manager.{World}
use wg_proxy.Health.{Checker, new_checker, check_all}

-- What a round of checks meets: the manager at its start, the results of the connections, the times
-- of its writes and of its end.
pub record Meeting : Type 0 where
  pub world : World
  pub dial : ℕ → Result ℕ
  pub clock : ℕ → ℕ
  pub now : ℕ

module _ (quote : Bytes → Bytes) where
  abbrev pub round : Meeting → Checker → Checker
  round m c = (check_all quote m.dial m.clock m.now m.world c).1

  -- The rounds of the ticks that come before the stop.
  unfoldable pub tick_loop : List Meeting → Checker → Checker
  tick_loop [] c = c
  tick_loop (m ∷ ms) c = tick_loop ms (round m c)

  -- `loop`
  unfoldable pub loop : Meeting → List Meeting → Checker → Checker
  unfolding tick_loop
  loop first ticks c = tick_loop ticks (round first c)

  tick_loop-counts :
      (ms : List Meeting) (c : Checker)
      → c.stats.total_checks + length ms < 2 ^ 63
      → ((tick_loop ms c).stats.total_checks ≡ c.stats.total_checks + length ms)
        × ((tick_loop ms c).deep_checks + (c.stats.total_checks + 4) / 5
            ≡ c.deep_checks + (c.stats.total_checks + length ms + 4) / 5)
  unfolding tick_loop check_all
  tick_loop-counts [] c h = omega arith
  tick_loop-counts (m ∷ ms) c h =
      let (checks, deep) = tick_loop-counts ms (round m c) (omega arith) in
      (ground arith, ground arith)

  -- The goroutine of a new checker, stopped after fewer than 2^63 - 1 ticks, has run one round of
  -- checks at its start and one for each tick; it has started a deep check in the first round and
  -- in every fifth one after it.
  pub loop-counts :
      (first : Meeting) (ticks : List Meeting)
      → suc (length ticks) < 2 ^ 63
      → ((loop first ticks new_checker).stats.total_checks ≡ suc (length ticks))
        × ((loop first ticks new_checker).deep_checks ≡ length ticks / 5 + 1)
  unfolding loop tick_loop new_checker
  loop-counts first ticks h =
      let (checks, deep) = tick_loop-counts (first ∷ ticks) new_checker (omega arith) in
      (omega (arith, checks), omega (arith, deep))
