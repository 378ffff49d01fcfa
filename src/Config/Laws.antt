-- ===== src/Config/Laws.antt =====
-- What the readers of variables accept (internal/config/config.go).
use wg_proxy.Common.{
  ℕ, zero, suc, ◌+◌, ◌-◌, ◌*◌, ◌/◌, ◌%◌, ◌^◌, ◌≤◌, ◌<◌, ◌≡◌, refl, ◌∙◌, true, false, [], ◌∷◌, ◌==◌,
  keep, Bool-cases, inl, inr, arith, if◌then◌else◌,
}
use wg_proxy.Common.Bytes.{Bytes, decimal, decimal_from, is_empty}
use wg_proxy.Config.{digits_value, is_digit, int_of}

-- The digits of a text spell this number, without a bound.
abbrev pub numeral : ℕ → Bytes → ℕ
numeral n [] = n
numeral n (c ∷ s) = numeral (n * 10 + (c - b'0')) s

mod_step : (n d : ℕ) → (n % 2 ^ 64 * 10 + d) % 2 ^ 64 ≡ (n * 10 + d) % 2 ^ 64
mod_step n d = omega arith

digits_value-numeral :
    (n : ℕ) (s : Bytes) → digits_value (n % 2 ^ 64) s ≡ numeral n (keep is_digit s) % 2 ^ 64
unfolding digits_value
digits_value-numeral n [] = refl
digits_value-numeral n (c ∷ s) = elim (Bool-cases (is_digit c)) [
  | inl e ↦ rw (e, mod_step n (c - b'0')) (digits_value-numeral (n * 10 + (c - b'0')) s)
  | inr e ↦ rw e (digits_value-numeral n s)
]

-- `envOrDefaultInt` passes over every character that is no digit, and takes the number that the
-- others spell, modulo 2^64; the default stands for the number 0, and so for a text without digits.
pub int_of-numeral :
    (v : Bytes) (def : ℕ)
    → int_of v def ≡ (
        if numeral 0 (keep is_digit v) % 2 ^ 64 == 0
        then def
        else numeral 0 (keep is_digit v) % 2 ^ 64)
unfolding int_of
int_of-numeral [] def = refl
int_of-numeral (c ∷ s) def =
    let e : digits_value 0 (c ∷ s) ≡ numeral 0 (keep is_digit (c ∷ s)) % 2 ^ 64 =
      digits_value-numeral 0 (c ∷ s) in
    rw e

digit : (n : ℕ) → is_digit (b'0' + n % 10) ≡ true
digit n = ground arith

last_digit :
    (n : ℕ) (out : Bytes)
    → n < 2 ^ 64
    → digits_value (n / 10) ((b'0' + n % 10) ∷ out) ≡ digits_value n out
unfolding digits_value
last_digit n out h =
    let e : (n / 10 * 10 + (b'0' + n % 10 - b'0')) % 2 ^ 64 ≡ n = omega arith in rw (digit n, e)

digits_value-decimal_from :
    (f n : ℕ) (out : Bytes)
    → n ≤ f
    → n < 2 ^ 64
    → digits_value 0 (decimal_from f n out) ≡ digits_value n out
unfolding decimal_from
digits_value-decimal_from zero n out h k = let e : n ≡ 0 = omega arith in rw e
digits_value-decimal_from (suc f) n out h k = elim (Bool-cases (n == 0)) [
  | inl none ↦ let e : n ≡ 0 = ground arith in rw (none, e)
  | inr some ↦ rw some (
      digits_value-decimal_from f (n / 10) ((b'0' + n % 10) ∷ out) (ground arith) (omega arith)
      ∙ last_digit n out k)
]

no_digits : (n : ℕ) (s : Bytes) → 0 < n → digits_value 0 s ≡ n → is_empty s ≡ false
unfolding digits_value
no_digits n [] h e = absurd (omega arith)
no_digits n (c ∷ s) h e = refl

digits_value-end : (n : ℕ) → digits_value n [] ≡ n
unfolding digits_value
digits_value-end n = refl

int_of-value : (n def : ℕ) (s : Bytes) → 0 < n → digits_value 0 s ≡ n → int_of s def ≡ n
unfolding int_of
int_of-value n def s h e =
    let positive : (n == 0) ≡ false = ground arith in
    let some_digit : is_empty s ≡ false = no_digits n s h e in rw (some_digit, e, positive)

-- A positive number below 2^64 that is written in decimal, such as a port, is read back, whatever
-- the default.
pub int_of-decimal : (n def : ℕ) → 0 < n → n < 2 ^ 64 → int_of (decimal n) def ≡ n
unfolding decimal
int_of-decimal n def h k =
    let positive : (n == 0) ≡ false = ground arith in
    let e : digits_value 0 (decimal_from n n []) ≡ n =
      digits_value-decimal_from n n [] (omega arith) k ∙ digits_value-end n in
    rw positive (int_of-value n def (decimal_from n n []) h e)
