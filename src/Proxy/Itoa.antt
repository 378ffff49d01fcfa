-- ===== src/Proxy/Itoa.antt =====
-- `itoa` (internal/proxy/retry.go): the digits of a number, lowest first, and their reversal in
-- place. `none` is the panic of an index out of range. The fuel of both loops is a bound on their
-- rounds, which is enough by the theorem in Proxy.Itoa.Digits.
pub mod Digits
use wg_proxy.Common.{
  ℕ, zero, suc, ◌+◌, ◌-◌, ◌/◌, ◌%◌, true, false, Option, some, [], ◌∷◌, ◌++◌, ◌==◌, ltb,
  if◌then◌else◌, length, get_elem?, ◌>>=◌,
}
use wg_proxy.Common.Bytes.{Bytes}

-- `for n > 0 { buf = append(buf, byte('0'+n%10)); n /= 10 }`
unfoldable pub digit_loop : ℕ → ℕ → Bytes → Bytes
digit_loop zero n buf = buf
digit_loop (suc f) n buf =
    let rest = digit_loop f (n / 10) (buf ++ ((b'0' + n % 10) ∷ [])) in if n == 0 then buf else rest

-- `buf[i] = b`, at an index in range
unfoldable pub set_at : ℕ → ℕ → Bytes → Bytes
set_at i b [] = []
set_at zero b (c ∷ s) = b ∷ s
set_at (suc i) b (c ∷ s) = c ∷ set_at i b s

-- `buf[i], buf[j] = buf[j], buf[i]`
unfoldable pub swap : ℕ → ℕ → Bytes → Option Bytes
unfolding set_at
swap i j buf = do a ← get_elem? buf i; b ← get_elem? buf j; some (set_at i b (set_at j a buf))

-- `for i, j := …; i < j; i, j = i+1, j-1`
unfoldable pub swap_loop : ℕ → ℕ → ℕ → Bytes → Option Bytes
unfolding swap
swap_loop zero i j buf = some buf
swap_loop (suc f) i j buf = elim (ltb i j) [
  | false ↦ some buf
  | true ↦ swap i j buf >>= swap_loop f (i + 1) (j - 1)
]

-- `itoa` of a number that is not negative
unfoldable pub itoa : ℕ → Option Bytes
unfolding digit_loop swap_loop
itoa n =
    let buf = digit_loop n n [] in
    if n == 0 then some (b'0' ∷ []) else swap_loop (length buf) 0 (length buf - 1) buf
