-- ===== src/Health/Rounds/Validity.antt =====
-- That a round of checks keeps the list of tunnels well formed (internal/health/checker.go).
use wg_proxy.Common.{ℕ, ◌≡◌, refl, ap, ◌∙◌, List, [], ◌∷◌, ◌==◌, ==_iff, inl, inr, Bool-cases}
use wg_proxy.Common.Bytes.{Bytes}
use wg_proxy.Common.Errors.{Result}
use wg_proxy.Tunnels.{Tunnel}
use wg_proxy.Tunnels.Manager.{World}
use wg_proxy.Tunnels.Manager.Validity.{IsValid, Ascending-same}
use wg_proxy.Health.{Checker, Round, check_one, check_loop, check_all, first_round}
use wg_proxy.Health.Rounds.{check_one_other, check_one_self, after_round-port}

module _ (quote : Bytes → Bytes) (dial : ℕ → Result ℕ) (clock : ℕ → ℕ) where
  check_one-port :
      (p q : ℕ) (r : Round)
      → ((check_one quote dial clock p r).cells q).proxy_port ≡ (r.cells q).proxy_port
  check_one-port p q r = elim (Bool-cases (q == p)) [
    | inr e ↦ ap (λ (t : Tunnel). t.proxy_port) (check_one_other quote dial clock p q r e)
    | inl e ↦
        let same : q ≡ p = (==_iff q p).0 e in
        rw same (
          ap (λ (t : Tunnel). t.proxy_port) (check_one_self quote dial clock p r)
          ∙ after_round-port quote dial clock p (r.cells p))
  ]

  check_loop-port :
      (ps : List ℕ) (q : ℕ) (r : Round)
      → ((check_loop quote dial clock ps r).cells q).proxy_port ≡ (r.cells q).proxy_port
  unfolding check_loop
  check_loop-port [] q r = refl
  check_loop-port (p ∷ ps) q r =
      check_loop-port ps q (check_one quote dial clock p r) ∙ check_one-port p q r

  -- A round of checks that nothing else disturbs keeps the manager well formed.
  pub check_all-IsValid :
      (now : ℕ) (w : World) (k : Checker)
      → IsValid w
      → IsValid (check_all quote dial clock now w k).0
  unfolding check_all
  check_all-IsValid now w k v =
      Ascending-same w.cells
        (check_loop quote dial clock w.tunnels (first_round quote dial clock w k)).cells w.tunnels 0
        w.base_port w.fresh w.next_port
        (λ p. check_loop-port w.tunnels p (first_round quote dial clock w k)) v
