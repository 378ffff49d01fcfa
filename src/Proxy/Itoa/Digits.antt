-- ===== src/Proxy/Itoa/Digits.antt =====
-- The digits that `itoa` leaves (internal/proxy/retry.go).
use mathlib.Core.Path.{subst}
use mathlib.Core.List.{
  reverse, reverse_aux, reverse-append, reverse-reverse, append_assoc, append-nil,
}
use wg_proxy.Common.{
  ℕ, zero, suc, ◌+◌, ◌-◌, ◌/◌, ◌%◌, ◌≤◌, ◌≡◌, refl, sym, ap, ◌∙◌, inl, inr, true, false, some, [],
  ◌∷◌, ◌++◌, ◌==◌, ltb, length, length-append, get_elem?, get_elem?-append_length, Bool-cases,
  lt→ltb, le→not_ltb, arith,
}
use wg_proxy.Common.Bytes.{Bytes, decimal, decimal_from}
use wg_proxy.Proxy.Itoa.{digit_loop, set_at, swap, swap_loop, itoa}

set_at-length : (xs ys : Bytes) (a b : ℕ) → set_at (length xs) b (xs ++ (a ∷ ys)) ≡ xs ++ (b ∷ ys)
unfolding set_at
set_at-length [] ys a b = refl
set_at-length (x ∷ xs) ys a b = ap (◌∷◌ x) (set_at-length xs ys a b)

-- The swap of two elements that stand between three parts.
swap-parts :
    (xs m ys : Bytes) (a b : ℕ)
    → swap (length xs) (length (xs ++ (a ∷ m))) (xs ++ (a ∷ (m ++ (b ∷ ys))))
      ≡ some (xs ++ (b ∷ (m ++ (a ∷ ys))))
unfolding swap
swap-parts xs m ys a b =
    let regroup : (c : ℕ) → (xs ++ (a ∷ m)) ++ (c ∷ ys) ≡ xs ++ (a ∷ (m ++ (c ∷ ys))) =
      λ c. append_assoc xs (a ∷ m) (c ∷ ys) in
    let second : get_elem? (xs ++ (a ∷ (m ++ (b ∷ ys)))) (length (xs ++ (a ∷ m))) ≡ some b =
      rw (← regroup b) (get_elem?-append_length (xs ++ (a ∷ m)) ys b) in
    let put : set_at (length (xs ++ (a ∷ m))) a (xs ++ (a ∷ (m ++ (b ∷ ys))))
        ≡ xs ++ (a ∷ (m ++ (a ∷ ys))) =
      rw (← regroup b) (set_at-length (xs ++ (a ∷ m)) ys b a ∙ regroup a) in
    rw (get_elem?-append_length xs (m ++ (b ∷ ys)) a, second, put)
      (ap some (set_at-length xs (m ++ (a ∷ ys)) a b))

reverse-ends :
    (m ys : Bytes) (a b : ℕ) → reverse (a ∷ (m ++ (b ∷ []))) ++ ys ≡ b ∷ (reverse m ++ (a ∷ ys))
reverse-ends m ys a b =
    ap (λ z. z ++ ys)
      (reverse-append (a ∷ []) (m ++ (b ∷ []))
        ∙ ap (λ z. z ++ (a ∷ [])) (reverse-append m (b ∷ [])))
    ∙ ap (◌∷◌ b) (append_assoc (reverse m) (a ∷ []) ys)

-- One round: the outermost elements change places, and the rest is as reversed as it will be.
swap_loop-round :
    (f j : ℕ) (xs m ys : Bytes) (a b : ℕ)
    → j + 1 ≡ length xs + (length m + 2)
    → swap_loop f (length (xs ++ (b ∷ []))) (j - 1) ((xs ++ (b ∷ [])) ++ (m ++ (a ∷ ys)))
      ≡ some ((xs ++ (b ∷ [])) ++ (reverse m ++ (a ∷ ys)))
    → swap_loop (suc f) (length xs) j (xs ++ ((a ∷ (m ++ (b ∷ []))) ++ ys))
      ≡ some (xs ++ (reverse (a ∷ (m ++ (b ∷ []))) ++ ys))
unfolding swap_loop
swap_loop-round f j xs m ys a b ends rest =
    let inside : ltb (length xs) j ≡ true = lt→ltb (length xs) j (omega arith) in
    let at : j ≡ length (xs ++ (a ∷ m)) = omega (arith, length-append xs (a ∷ m)) in
    let up : length xs + 1 ≡ length (xs ++ (b ∷ [])) = omega (arith, length-append xs (b ∷ [])) in
    let swapped : swap (length xs) j (xs ++ (a ∷ ((m ++ (b ∷ [])) ++ ys)))
        ≡ some ((xs ++ (b ∷ [])) ++ (m ++ (a ∷ ys))) =
      ap (λ z. swap (length xs) z (xs ++ (a ∷ ((m ++ (b ∷ [])) ++ ys)))) at
      ∙ (ap (λ z. swap (length xs) (length (xs ++ (a ∷ m))) (xs ++ (a ∷ z)))
            (append_assoc m (b ∷ []) ys)
          ∙ (swap-parts xs m ys a b ∙ ap some (sym (append_assoc xs (b ∷ []) (m ++ (a ∷ ys)))))) in
    rw (inside, swap_loop, swapped, up)
      (rest
        ∙ ap some (
            append_assoc xs (b ∷ []) (reverse m ++ (a ∷ ys))
            ∙ ap (λ z. xs ++ z) (sym (reverse-ends m ys a b))))

-- A list that is not empty has a last element.
last_view : (c : ℕ) (t : Bytes) → (m : Bytes) × (b : ℕ) × (c ∷ t ≡ m ++ (b ∷ []))
last_view c [] = ([], c, refl)
last_view c (d ∷ t) = let (m, b, e) = last_view d t in (c ∷ m, b, ap (◌∷◌ c) e)

-- The swaps between two parts reverse what stands between them.
swap_loop-reverse :
    (f j : ℕ) (xs mid ys : Bytes)
    → length mid ≤ f
    → j + 1 ≡ length xs + length mid
    → swap_loop f (length xs) j (xs ++ (mid ++ ys)) ≡ some (xs ++ (reverse mid ++ ys))
unfolding swap_loop
swap_loop-reverse zero j xs [] ys short ends = refl
swap_loop-reverse zero j xs (a ∷ mid) ys short ends = absurd (omega arith)
swap_loop-reverse (suc f) j xs [] ys short ends =
    rw (le→not_ltb (length xs) j (omega arith), swap_loop) refl
swap_loop-reverse (suc f) j xs (a ∷ []) ys short ends =
    rw (le→not_ltb (length xs) j (omega arith), swap_loop) refl
swap_loop-reverse (suc f) j xs (a ∷ c ∷ t) ys short ends =
    let (m, b, e) = last_view c t in
    let size : length (c ∷ t) ≡ length m + 1 = ap length e ∙ length-append m (b ∷ []) in
    let rest =
      swap_loop-reverse f (j - 1) (xs ++ (b ∷ [])) m (a ∷ ys) (omega arith)
        (omega (arith, length-append xs (b ∷ []))) in
    subst
      (λ z.
        swap_loop (suc f) (length xs) j (xs ++ ((a ∷ z) ++ ys))
        ≡ some (xs ++ (reverse (a ∷ z) ++ ys)))
      (sym e) (swap_loop-round f j xs m ys a b (omega arith) rest)

decimal_from-append : (f n : ℕ) (out : Bytes) → decimal_from f n out ≡ decimal_from f n [] ++ out
unfolding decimal_from
decimal_from-append zero n out = refl
decimal_from-append (suc f) n out = elim (Bool-cases (n == 0)) [
  | inl e ↦ rw e refl
  | inr e ↦ rw e (
      decimal_from-append f (n / 10) ((b'0' + n % 10) ∷ out)
      ∙ (sym (append_assoc (decimal_from f (n / 10) []) ((b'0' + n % 10) ∷ []) out)
          ∙ ap (λ z. z ++ out) (sym (decimal_from-append f (n / 10) ((b'0' + n % 10) ∷ [])))))
]

-- The loop appends the digits in the opposite order.
digit_loop-reverse :
    (f n : ℕ) (buf : Bytes) → digit_loop f n buf ≡ buf ++ reverse (decimal_from f n [])
unfolding digit_loop decimal_from
digit_loop-reverse zero n buf = sym (append-nil buf)
digit_loop-reverse (suc f) n buf = elim (Bool-cases (n == 0)) [
  | inl e ↦ rw e (sym (append-nil buf))
  | inr e ↦ rw e (
      digit_loop-reverse f (n / 10) (buf ++ ((b'0' + n % 10) ∷ []))
      ∙ (append_assoc buf ((b'0' + n % 10) ∷ []) _
          ∙ ap (λ z. buf ++ z)
              (sym (
                ap reverse (decimal_from-append f (n / 10) ((b'0' + n % 10) ∷ []))
                ∙ reverse-append (decimal_from f (n / 10) []) ((b'0' + n % 10) ∷ [])))))
]

length-reverse_aux : (s acc : Bytes) → length (reverse_aux s acc) ≡ length s + length acc
length-reverse_aux [] acc = omega arith
length-reverse_aux (c ∷ s) acc = omega (arith, length-reverse_aux s (c ∷ acc))

digits-some : (n : ℕ) → (n == 0) ≡ false → 1 ≤ length (decimal_from n n [])
unfolding decimal_from
digits-some zero e = ground arith
digits-some (suc k) e =
    let digit = b'0' + suc k % 10 in
    let size =
      ap length (decimal_from-append k (suc k / 10) (digit ∷ []))
      ∙ length-append (decimal_from k (suc k / 10) []) (digit ∷ []) in
    rw e (omega (arith, size))

swap_loop-all :
    (buf : Bytes)
    → 1 ≤ length buf
    → swap_loop (length buf) 0 (length buf - 1) buf ≡ some (reverse buf)
swap_loop-all buf some_digit =
    ap (swap_loop (length buf) 0 (length buf - 1)) (sym (append-nil buf))
    ∙ (swap_loop-reverse (length buf) (length buf - 1) [] buf [] (omega arith) (omega arith)
        ∙ ap some (append-nil (reverse buf)))

-- `itoa` of a number that is not negative panics on no index, and returns its decimal numeral.
pub itoa-decimal : (n : ℕ) → itoa n ≡ some (decimal n)
unfolding itoa decimal
itoa-decimal n = elim (Bool-cases (n == 0)) [
  | inl e ↦ rw e refl
  | inr e ↦
      let digits = decimal_from n n [] in
      let size = length-reverse_aux digits [] in
      rw (e, digit_loop-reverse n n [])
        (swap_loop-all (reverse digits) (omega (arith, digits-some n e, size))
          ∙ ap some (reverse-reverse digits))
]
