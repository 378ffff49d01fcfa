-- ===== src/Common/Errors.antt =====
-- Go's `error` values, and results `(value, error)` of which one is nil.
use mathlib.Core.Path.{◌≡◌, refl}
use mathlib.Core.Logic.{◌⊎◌, inl, inr}
use mathlib.Core.List.{◌++◌}
use wg_proxy.Common.Bytes.{Bytes, codes}

-- `external` is an error that a library call returns, known by its text.
pub data GoError : Type 0 where
  external : Bytes → GoError
  -- `errors.New(text)`, or `fmt.Errorf` of a text with no error in it
  message : Bytes → GoError
  -- `fmt.Errorf("<before>%q<after>", name)`
  quoting : Bytes → Bytes → Bytes → GoError
  -- `fmt.Errorf("<what>: %w", err)`
  wrapping : Bytes → GoError → GoError

pub data Result {ℓ} (A : Type ℓ) : Type ℓ where
  ok : A → Result A
  err : GoError → Result A

pub Result-cases {ℓ} :
    {A : Type ℓ} (r : Result A) → ((a : A) × (r ≡ ok a)) ⊎ ((e : GoError) × (r ≡ err e))
Result-cases (ok a) = inl (a, refl)
Result-cases (err e) = inr (e, refl)

-- The text of an error, `err.Error()`, where `quote` is the `%q` of the package fmt.
abbrev pub error_string : (Bytes → Bytes) → GoError → Bytes
error_string quote (external text) = text
error_string quote (message text) = text
error_string quote (quoting before name after) = before ++ (quote name ++ after)
error_string quote (wrapping what e) = what ++ (codes ": " ++ error_string quote e)

pub ok-ne-err {ℓ} : {A : Type ℓ} {x : A} {e : GoError} → ¬ (ok x ≡ err e)
ok-ne-err h = cc

pub ok-inj {ℓ} : {A : Type ℓ} {x y : A} → ok x ≡ ok y → x ≡ y
ok-inj h = cc
