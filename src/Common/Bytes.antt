-- ===== src/Common/Bytes.antt =====
-- Go strings and byte slices as lists of bytes, with the operations of the language and of its
-- `strings` package that the program calls.
use Prim.Native.Char.{code}
use Prim.Native.String.{String}
use Prim.Native.Nat.{ℕ, zero, suc, ◌+◌, ◌-◌, ◌/◌, ◌%◌, ◌≤◌, ◌<◌}
use mathlib.Core.Path.{◌≡◌, refl}
use mathlib.Core.Logic.{◌↔◌}
use mathlib.Core.Bool.{Bool, true, false, ◌&&◌}
use mathlib.Core.List.{List, [], ◌∷◌}
use mathlib.Core.Option.{Option, none, some}
use native.Mathlib.Omega.{arith}
use wg_proxy.Common.Tests.{leb, ◌==◌, if◌then◌else◌}
use wg_proxy.Common.Lists.{length, take, drop}

abbrev pub Bytes : Type 0
Bytes = List ℕ

abbrev pub IsByte : ℕ → Type 0
IsByte b = b < 256

-- The bytes of an ASCII literal.
abbrev pub codes : String → Bytes
codes String.[] = []
codes (String.◌∷◌ c s) = code c ∷ codes s

unfoldable pub bytes_eq : Bytes → Bytes → Bool
bytes_eq [] [] = true
bytes_eq [] (_ ∷ _) = false
bytes_eq (_ ∷ _) [] = false
bytes_eq (x ∷ xs) (y ∷ ys) = (x == y) && bytes_eq xs ys

pub bytes_eq_refl : (xs : Bytes) → bytes_eq xs xs ≡ true
unfolding bytes_eq
bytes_eq_refl [] = refl
bytes_eq_refl (x ∷ xs) = ground (arith, bytes_eq_refl xs)

bytes_eq→eq : (xs ys : Bytes) → bytes_eq xs ys ≡ true → xs ≡ ys
unfolding bytes_eq
bytes_eq→eq [] [] h = refl
bytes_eq→eq [] (y ∷ ys) h = ground arith
bytes_eq→eq (x ∷ xs) [] h = ground arith
bytes_eq→eq (x ∷ xs) (y ∷ ys) h = ground (arith, bytes_eq→eq xs ys)

pub bytes_eq_iff : (xs ys : Bytes) → (bytes_eq xs ys ≡ true) ↔ (xs ≡ ys)
bytes_eq_iff xs ys = (bytes_eq→eq xs ys, λ e. ground (arith, bytes_eq_refl xs))

abbrev pub is_empty : Bytes → Bool
is_empty [] = true
is_empty (_ ∷ _) = false

-- `b[lo:hi]` of a slice that holds `b`; `none` is the panic of a bound past its end.
abbrev pub slice : Bytes → ℕ → ℕ → Option Bytes
slice b lo hi = if leb lo hi && leb hi (length b) then some (take (hi - lo) (drop lo b)) else none

pub slice-some :
    (b : Bytes) (lo hi : ℕ)
    → lo ≤ hi
    → hi ≤ length b
    → slice b lo hi ≡ some (take (hi - lo) (drop lo b))
slice-some b lo hi h k = ground arith

-- `strings.HasSuffix` and `strings.TrimSuffix`
unfoldable pub has_suffix : Bytes → Bytes → Bool
unfolding bytes_eq
has_suffix s suffix =
    leb (length suffix) (length s) && bytes_eq (drop (length s - length suffix) s) suffix

unfoldable pub trim_suffix : Bytes → Bytes → Bytes
unfolding has_suffix
trim_suffix s suffix = if has_suffix s suffix then take (length s - length suffix) s else s

-- `%d` of a number, by digits with fuel; `decimal` gives enough.
unfoldable pub decimal_from : ℕ → ℕ → Bytes → Bytes
decimal_from zero n out = out
decimal_from (suc f) n out =
    let rest = decimal_from f (n / 10) ((b'0' + n % 10) ∷ out) in if n == 0 then out else rest

unfoldable pub decimal : ℕ → Bytes
unfolding decimal_from
decimal n = if n == 0 then b'0' ∷ [] else decimal_from n n []

decimal_example : decimal 10080 ≡ codes "10080"
unfolding decimal
decimal_example = refl
