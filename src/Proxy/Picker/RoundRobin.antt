-- ===== src/Proxy/Picker/RoundRobin.antt =====
-- The balance of the picks in internal/proxy/server.go.
use mathlib.Core.List.{Memᴰ}
use wg_proxy.Common.{
  mem-keep, get_elem?-mem, take-suc-drop, take_all, some-inj, bind-inv, length-drop, ℕ, zero, suc,
  ◌+◌, ◌-◌, ◌%◌, ◌^◌, ◌≤◌, ◌<◌, ◌≡◌, ◌⊎◌, inl, inr, refl, sym, ap, ◌∙◌, true, none, some, List, [],
  ◌∷◌, ◌++◌, length, arith, All, get_elem?, get_elem?-some, get_elem?-Defined, ◌>>=◌, Defined,
  Defined-bind, Defined-some, take, drop, Bool-cases,
}
use wg_proxy.Tunnels.{Cells, is_healthy}
use wg_proxy.Proxy.Picker.{Pick, healthy, choose, pick, picks, backend_address}

choose-Defined : (cells : Cells) (ps : List ℕ) (counter : ℕ) → Defined (choose cells ps counter)
unfolding choose
choose-Defined cells [] counter = Defined-some _
choose-Defined cells (p ∷ ps) counter =
    Defined-bind _ _ (get_elem?-Defined (p ∷ ps) (counter % length (p ∷ ps)) (grind arith))
      λ t _. Defined-some _

-- A pick never indexes past the healthy tunnels, whatever the counter.
pub pick-Defined : (cells : Cells) (ts : List ℕ) (counter : ℕ) → Defined (pick cells ts counter)
unfolding pick
pick-Defined cells ts counter = choose-Defined cells (healthy cells ts) counter

All-healthy :
    (cells : Cells) (ts : List ℕ) → All (λ p. is_healthy (cells p) ≡ true) (healthy cells ts)
All-healthy cells [] = tt
All-healthy cells (p ∷ ps) = elim (Bool-cases (is_healthy (cells p))) [
  | inl e ↦ rw e (e, All-healthy cells ps)
  | inr e ↦ rw e (All-healthy cells ps)
]

abbrev picked : Cells → ℕ → ℕ → Pick
picked cells counter t = record {
  counter = (counter + 1) % 2 ^ 64;
  chosen = some (backend_address (cells t), t);
}

choose_step :
    (cells : Cells) (ps : List ℕ) (counter t : ℕ)
    → get_elem? ps (counter % length ps) ≡ some t
    → choose cells ps counter ≡ some (picked cells counter t)
unfolding choose
choose_step cells [] counter t e = cc
choose_step cells (p ∷ ps) counter t e = rw e

choose_cases :
    (cells : Cells) (ps : List ℕ) (counter : ℕ)
    → ((ps ≡ []) × (choose cells ps counter ≡ some (record { counter = counter; chosen = none })))
      ⊎ ((t : ℕ) × (get_elem? ps (counter % length ps) ≡ some t)
          × (choose cells ps counter ≡ some (picked cells counter t)))
unfolding choose
choose_cases cells [] counter = inl (refl, refl)
choose_cases cells (p ∷ ps) counter =
    let (t, e) = get_elem?-some (p ∷ ps) (counter % length (p ∷ ps)) (grind arith) in
    inr (t, e, rw e)

-- A pick fails exactly where no tunnel is healthy, and then leaves the counter as it was. Otherwise
-- it names one of the listed tunnels that is healthy, with that tunnel's own address, and counts up
-- by one modulo 2^64.
pub pick_cases :
    (cells : Cells) (ts : List ℕ) (counter : ℕ)
    → ((healthy cells ts ≡ [])
        × (pick cells ts counter ≡ some (record { counter = counter; chosen = none })))
      ⊎ ((t : ℕ) × Memᴰ t ts
          × (is_healthy (cells t) ≡ true)
          × (pick cells ts counter
              ≡ some (record {
                counter = (counter + 1) % 2 ^ 64;
                chosen = some (backend_address (cells t), t);
              })))
unfolding pick
pick_cases cells ts counter = elim (choose_cases cells (healthy cells ts) counter) [
  | inl w ↦ inl w
  | inr (t, e, w) ↦
      let (m, h) = mem-keep (λ p. is_healthy (cells p)) ts t (get_elem?-mem _ _ t e) in
      inr (t, m, h, w)
]

mod_next : (c n : ℕ) → c % n + 1 < n → (c + 1) % n ≡ suc (c % n)
mod_next c n h = grind arith

mod_round : (c n : ℕ) → 0 < n → (c + (n - c % n)) % n ≡ 0
mod_round c n h = grind arith

module _ (cells : Cells) (ts : List ℕ) where
  abbrev hs : List ℕ
  hs = healthy cells ts

  picks_step :
      (counter k t : ℕ)
      → counter + 1 < 2 ^ 64
      → get_elem? hs (counter % length hs) ≡ some t
      → picks cells ts counter (suc k)
        ≡ (picks cells ts (counter + 1) k >>= λ rest. some (t ∷ rest))
  unfolding picks pick
  picks_step counter k t fits e =
      let wrap : (counter + 1) % 2 ^ 64 ≡ counter + 1 = omega arith in
      rw (choose_step cells hs counter t e, wrap)

  picks_zero : (counter : ℕ) → picks cells ts counter 0 ≡ some []
  unfolding picks
  picks_zero counter = refl

  -- As long as the counter does not pass a multiple of the length, the picks go along the list.
  picks_along :
      (k counter : ℕ)
      → counter + k < 2 ^ 64
      → 0 < length hs
      → counter % length hs + k ≤ length hs
      → picks cells ts counter k ≡ some (take k (drop (counter % length hs) hs))
  picks_along zero counter fits some_left within = picks_zero counter
  picks_along (suc zero) counter fits some_left within =
      let (t, e) = get_elem?-some hs (counter % length hs) (grind arith) in
      rw (
        picks_step counter 0 t (omega arith) e,
        picks_zero (counter + 1),
        take-suc-drop hs (counter % length hs) 0 t e,
      )
  picks_along (suc (suc k)) counter fits some_left within =
      let (t, e) = get_elem?-some hs (counter % length hs) (grind arith) in
      let next : (counter + 1) % length hs ≡ suc (counter % length hs) =
        mod_next counter (length hs) (omega arith) in
      let ih : picks cells ts (counter + 1) (suc k)
          ≡ some (take (suc k) (drop ((counter + 1) % length hs) hs)) =
        picks_along (suc k) (counter + 1) (omega arith) some_left (omega (arith, next)) in
      rw (
        picks_step counter (suc k) t (omega arith) e,
        ih,
        next,
        take-suc-drop hs (counter % length hs) (suc k) t e,
      )

  picks-add :
      (j k counter : ℕ) (a b : List ℕ)
      → counter + (j + k) < 2 ^ 64
      → 0 < length hs
      → picks cells ts counter j ≡ some a
      → picks cells ts (counter + j) k ≡ some b
      → picks cells ts counter (j + k) ≡ some (a ++ b)
  picks-add zero k counter a b fits some_left ea eb =
      let none_yet : [] ≡ a = some-inj (sym (picks_zero counter) ∙ ea) in
      let e : 0 + k ≡ k = omega arith in
      let e' : counter + 0 ≡ counter = omega arith in rw (e, ← none_yet) (rw e' at eb)
  picks-add (suc j) k counter a b fits some_left ea eb =
      let (t, e) = get_elem?-some hs (counter % length hs) (grind arith) in
      let (r, er, same) =
        bind-inv (picks cells ts (counter + 1) j) (λ rest. some (t ∷ rest))
          (sym (picks_step counter j t (omega arith) e) ∙ ea) in
      let count : suc j + k ≡ suc (j + k) = omega arith in
      let shift : counter + suc j ≡ counter + 1 + j = omega arith in
      let ih : picks cells ts (counter + 1) (j + k) ≡ some (r ++ b) =
        picks-add j k (counter + 1) r b (omega arith) some_left er (rw shift at eb) in
      rw (count, picks_step counter (j + k) t (omega arith) e, ih, ← some-inj same)

  -- While no tunnel changes and at least one is healthy: from any counter below the wrap of its 64
  -- bits, one pick for each healthy tunnel visits them in turn from the place where the counter
  -- stands, round to the one before it: each once.
  pub picks-rotation :
      (counter : ℕ)
      → counter + length hs < 2 ^ 64
      → 0 < length hs
      → picks cells ts counter (length hs)
        ≡ some (drop (counter % length hs) hs ++ take (counter % length hs) hs)
  picks-rotation counter fits some_left =
      let r = counter % length hs in
      let j = length hs - r in
      let below : r < length hs = grind arith in
      let round : (counter + j) % length hs ≡ 0 = mod_round counter (length hs) some_left in
      let all : take j (drop r hs) ≡ drop r hs =
        take_all j (drop r hs) (omega (arith, length-drop r hs)) in
      let first : picks cells ts counter j ≡ some (drop r hs) =
        picks_along j counter (omega arith) some_left (omega arith) ∙ ap some all in
      let second : picks cells ts (counter + j) r
          ≡ some (take r (drop ((counter + j) % length hs) hs)) =
        picks_along r (counter + j) (omega arith) some_left (omega arith) in
      let count : j + r ≡ length hs = omega arith in
      rw count at (picks-add j r counter _ _ (omega arith) some_left first (rw round at second))
