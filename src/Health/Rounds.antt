-- ===== src/Health/Rounds.antt =====
-- What a round of checks leaves (internal/health/checker.go).
pub mod Validity
use wg_proxy.Common.{
  ℕ, zero, suc, ◌+◌, ◌^◌, ◌<◌, ◌≡◌, refl, ap, ◌∙◌, true, false, not, some, List, [], ◌∷◌, ◌==◌,
  ==_refl, if◌then◌else◌, length, arith, inl, inr, Bool-cases, get_elem?, some-inj,
}
use wg_proxy.Common.Bytes.{Bytes}
use wg_proxy.Common.Errors.{Result, ok, err}
use wg_proxy.Tunnels.{
  Tunnel, Status, stopped, starting, running, unhealthy, error, disconnected, is_running,
  is_healthy, Cells,
}
use wg_proxy.Tunnels.Manager.{World}
use wg_proxy.Tunnels.Manager.Validity.{Ascending, IsValid, get-bounds}
use wg_proxy.Proxy.Picker.{healthy}
use wg_proxy.Health.{
  Checker, Round, is_checked, check_tunnel, checked, after_check, check_one, check_loop, check_all,
  first_round,
}

not_checked-not_running : (s : Status) → not (is_checked s) ≡ true → is_running s ≡ false
not_checked-not_running stopped h = refl
not_checked-not_running error h = refl
not_checked-not_running disconnected h = refl
not_checked-not_running starting h = refl
not_checked-not_running running h = cc
not_checked-not_running unhealthy h = refl

module _ (quote : Bytes → Bytes) (dial : ℕ → Result ℕ) (clock : ℕ → ℕ) where
  -- What a round makes of the tunnel in the cell `p`.
  abbrev pub after_round : ℕ → Tunnel → Tunnel
  after_round p t =
      if not (is_checked t.status) then t else checked quote (clock p) (check_tunnel dial t) t

  abbrev ahead : Tunnel → ℕ
  ahead t = if is_healthy t then 1 else 0

  after_check_self :
      (p : ℕ) (x : Result ℕ) (r : Round)
      → (after_check quote dial clock p x r).cells p ≡ checked quote (clock p) x (r.cells p)
  after_check_self p (ok l) r = rw (==_refl p)
  after_check_self p (err e) r = rw (==_refl p)

  after_check_other :
      (p q : ℕ) (x : Result ℕ) (r : Round)
      → (q == p) ≡ false
      → (after_check quote dial clock p x r).cells q ≡ r.cells q
  after_check_other p q (ok l) r h = rw h
  after_check_other p q (err e) r h = rw h

  after_check-count :
      (p : ℕ) (x : Result ℕ) (r : Round)
      → r.healthy_count + 1 < 2 ^ 64
      → (after_check quote dial clock p x r).healthy_count
        ≡ r.healthy_count + ahead (checked quote (clock p) x (r.cells p))
  after_check-count p (ok l) r h = omega arith
  after_check-count p (err e) r h = omega arith

  pub check_one_self :
      (p : ℕ) (r : Round) → (check_one quote dial clock p r).cells p ≡ after_round p (r.cells p)
  unfolding check_one
  check_one_self p r = elim (Bool-cases (not (is_checked (r.cells p).status))) [
    | inl e ↦ rw e
    | inr e ↦ rw e (after_check_self p (check_tunnel dial (r.cells p)) r)
  ]

  pub check_one_other :
      (p q : ℕ) (r : Round)
      → (q == p) ≡ false
      → (check_one quote dial clock p r).cells q ≡ r.cells q
  unfolding check_one
  check_one_other p q r h = elim (Bool-cases (not (is_checked (r.cells p).status))) [
    | inl e ↦ rw e
    | inr e ↦ rw e (after_check_other p q (check_tunnel dial (r.cells p)) r h)
  ]

  check_one-count :
      (p : ℕ) (r : Round)
      → r.healthy_count + 1 < 2 ^ 64
      → (check_one quote dial clock p r).healthy_count
        ≡ r.healthy_count + ahead (after_round p (r.cells p))
  unfolding check_one
  check_one-count p r h = elim (Bool-cases (not (is_checked (r.cells p).status))) [
    | inl e ↦
        let idle : is_healthy (r.cells p) ≡ false = not_checked-not_running (r.cells p).status e in
        rw (e, idle) (omega arith)
    | inr e ↦ rw e (after_check-count p (check_tunnel dial (r.cells p)) r h)
  ]

  checked-port :
      (n : ℕ) (x : Result ℕ) (t : Tunnel) → (checked quote n x t).proxy_port ≡ t.proxy_port
  checked-port n (ok l) t = refl
  checked-port n (err e) t = refl

  pub after_round-port : (p : ℕ) (t : Tunnel) → (after_round p t).proxy_port ≡ t.proxy_port
  after_round-port p t = elim (Bool-cases (not (is_checked t.status))) [
    | inl e ↦ rw e
    | inr e ↦ rw e (checked-port (clock p) (check_tunnel dial t) t)
  ]

  eq-false : (a b : ℕ) → b < a → (a == b) ≡ false
  eq-false a b h = ground arith

  not-eq : (a b : ℕ) → a < b → (a == b) ≡ false
  not-eq a b h = ground arith

  -- The cells below the list are left alone.
  check_loop-below :
      (ps : List ℕ) (r : Round) (c : Cells) (first base q port x : ℕ)
      → Ascending c first base ps q port
      → x < first
      → (check_loop quote dial clock ps r).cells x ≡ r.cells x
  unfolding check_loop
  check_loop-below [] r c first base q port x v h = refl
  check_loop-below (p ∷ ps) r c first base q port x (a, b, v) h =
      check_loop-below ps (check_one quote dial clock p r) c (p + 1) ((c p).proxy_port + 1) q port x
        v (omega arith)
      ∙ check_one_other p x r (not-eq x p (omega arith))

  check_loop-cells :
      (ps : List ℕ) (r : Round) (c : Cells) (first base q port i p : ℕ)
      → Ascending c first base ps q port
      → get_elem? ps i ≡ some p
      → (check_loop quote dial clock ps r).cells p ≡ after_round p (r.cells p)
  unfolding check_loop
  check_loop-cells [] r c first base q port i p v e = cc
  check_loop-cells (s ∷ ps) r c first base q port zero p (a, b, v) e = rw (← some-inj e) (
      check_loop-below ps (check_one quote dial clock s r) c (s + 1) ((c s).proxy_port + 1) q port s
        v (omega arith)
      ∙ check_one_self s r)
  check_loop-cells (s ∷ ps) r c first base q port (suc i) p (a, b, v) e =
      check_loop-cells ps (check_one quote dial clock s r) c (s + 1) ((c s).proxy_port + 1) q port i
        p v e
      ∙ ap (λ t. after_round p t)
          (check_one_other s p r (
            eq-false p s
              (omega (arith, get-bounds c ps (s + 1) ((c s).proxy_port + 1) q port i p v e))))

  check_loop-count :
      (ps : List ℕ) (r : Round) (c : Cells) (first base q port : ℕ)
      → Ascending c first base ps q port
      → r.healthy_count + length ps < 2 ^ 64
      → (check_loop quote dial clock ps r).healthy_count
        ≡ r.healthy_count + length (healthy (check_loop quote dial clock ps r).cells ps)
  unfolding check_loop
  check_loop-count [] r c first base q port v h = omega arith
  check_loop-count (p ∷ ps) r c first base q port (a, b, v) h =
      let r1 = check_one quote dial clock p r in
      let here : (check_loop quote dial clock ps r1).cells p ≡ after_round p (r.cells p) =
        check_loop-below ps r1 c (p + 1) ((c p).proxy_port + 1) q port p v (omega arith)
        ∙ check_one_self p r in
      let count = check_one-count p r (omega arith) in
      elim (Bool-cases (is_healthy (after_round p (r.cells p)))) [
        | inl e ↦
            let one : r1.healthy_count ≡ r.healthy_count + 1 = rw e at count in
            rw (here, e)
              (omega (
                arith,
                check_loop-count ps r1 c (p + 1) ((c p).proxy_port + 1) q port v (omega arith),
              ))
        | inr e ↦
            let none_more : r1.healthy_count ≡ r.healthy_count + 0 = rw e at count in
            rw (here, e)
              (omega (
                arith,
                check_loop-count ps r1 c (p + 1) ((c p).proxy_port + 1) q port v (omega arith),
              ))
      ]

  -- In a well-formed manager, a round of checks that nothing else disturbs leaves a listed tunnel
  -- that is stopped, failed or disconnected as it was; it makes any other healthy if its port takes
  -- a connection, and unhealthy with the error if not.
  pub check_all-cells :
      (now : ℕ) (w : World) (k : Checker) (i p : ℕ)
      → IsValid w
      → get_elem? w.tunnels i ≡ some p
      → (check_all quote dial clock now w k).0.cells p ≡ after_round p (w.cells p)
  unfolding check_all
  check_all-cells now w k i p v e =
      check_loop-cells w.tunnels (first_round quote dial clock w k) w.cells 0 w.base_port w.fresh
        w.next_port i p v e

  -- In a well-formed manager with fewer than 2^64 tunnels, the number of healthy tunnels that a
  -- round reports is the number of tunnels from which the proxy may pick when the round is over.
  pub check_all-count :
      (now : ℕ) (w : World) (k : Checker)
      → IsValid w
      → length w.tunnels < 2 ^ 64
      → (check_all quote dial clock now w k).1.stats.healthy_count
        ≡ length (
            healthy
              (check_all quote dial clock now w k).0.cells
              (check_all quote dial clock now w k).0.tunnels)
  unfolding check_all
  check_all-count now w k v h =
      check_loop-count w.tunnels (first_round quote dial clock w k) w.cells 0 w.base_port w.fresh
        w.next_port v (omega arith)
      ∙ omega arith
