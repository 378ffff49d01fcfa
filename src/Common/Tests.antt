-- ===== src/Common/Tests.antt =====
-- Boolean tests on the native numbers, the conditional, and `Option` as the monad of a Go panic.
use Prim.Native.Nat.{ℕ, ◌<◌, ◌≤◌, compare, Ordering}
use mathlib.Core.Path.{◌≡◌, refl}
use mathlib.Core.Logic.{◌↔◌, ◌⊎◌, inl, inr}
use mathlib.Core.Bool.{Bool, true, false, ◌&&◌}
use mathlib.Core.Option.{Option, none, some}
use native.Mathlib.Omega.{arith}

abbrev pub ltb : ℕ → ℕ → Bool
ltb a b = elim (compare a b) [ Ordering.lt ↦ true | _ ↦ false ]

abbrev pub leb : ℕ → ℕ → Bool
leb a b = elim (compare a b) [ Ordering.gt ↦ false | _ ↦ true ]

infix 50 ◌==◌
abbrev pub ◌==◌ : ℕ → ℕ → Bool
a == b = elim (compare a b) [ Ordering.eq ↦ true | _ ↦ false ]

infix 1 if◌then◌else◌
abbrev pub if◌then◌else◌ {ℓ} : {A : Type ℓ} → Bool → A → A → A
if true then x else y = x
if false then x else y = y

pub ltb→lt : (a b : ℕ) → ltb a b ≡ true → a < b
ltb→lt a b h = ground arith

pub leb→le : (a b : ℕ) → leb a b ≡ true → a ≤ b
leb→le a b h = ground arith

pub not_ltb→le : (a b : ℕ) → ltb a b ≡ false → b ≤ a
not_ltb→le a b h = ground arith

pub lt→ltb : (a b : ℕ) → a < b → ltb a b ≡ true
lt→ltb a b h = ground arith

pub le→leb : (a b : ℕ) → a ≤ b → leb a b ≡ true
le→leb a b h = ground arith

pub le→not_ltb : (a b : ℕ) → b ≤ a → ltb a b ≡ false
le→not_ltb a b h = ground arith

pub ==_iff : (a b : ℕ) → ((a == b) ≡ true) ↔ (a ≡ b)
==_iff a b = ground arith

pub ==_refl : (a : ℕ) → (a == a) ≡ true
==_refl a = ground arith

pub Bool-cases : (b : Bool) → (b ≡ true) ⊎ (b ≡ false)
Bool-cases true = inl refl
Bool-cases false = inr refl

pub and-eq-true : (a b : Bool) → (a && b) ≡ true → (a ≡ true) × (b ≡ true)
and-eq-true a b h = ground arith

pub Option-cases {ℓ} : {A : Type ℓ} (o : Option A) → (o ≡ none) ⊎ ((a : A) × (o ≡ some a))
Option-cases none = inl refl
Option-cases (some a) = inr (a, refl)

-- `none` is a run-time panic of the Go program.
infixl 5 ◌>>=◌
abbrev pub ◌>>=◌ {ℓ κ} : {A : Type ℓ} {B : Type κ} → Option A → (A → Option B) → Option B
none >>= f = none
some a >>= f = f a

-- A computation that does not panic.
pub data Defined {ℓ} {A : Type ℓ} (o : Option A) : Type ℓ where
  defined : (a : A) → o ≡ some a → Defined o

pub Defined-some {ℓ} : {A : Type ℓ} (a : A) → Defined (some a)
Defined-some a = defined a refl

pub Defined-bind {ℓ κ} :
    {A : Type ℓ} {B : Type κ} (o : Option A) (k : A → Option B)
    → Defined o
    → ((a : A) → o ≡ some a → Defined (k a))
    → Defined (o >>= k)
Defined-bind o k (defined a e) f = rw e (f a e)

pub Defined-if {ℓ} :
    {A : Type ℓ} (b : Bool) (x y : Option A)
    → (b ≡ true → Defined x)
    → (b ≡ false → Defined y)
    → Defined (if b then x else y)
Defined-if true x y f g = f refl
Defined-if false x y f g = g refl

pub value_of {ℓ} : {A : Type ℓ} {o : Option A} → Defined o → (a : A) × (o ≡ some a)
value_of (defined a e) = (a, e)

-- Inversion of a guard that returns false.
pub guard-inv :
    (b : Bool) (y : Option Bool)
    → (if b then some false else y) ≡ some true
    → (b ≡ false) × (y ≡ some true)
guard-inv true y e = cc
guard-inv false y e = (refl, e)

pub bind-inv {ℓ κ} :
    {A : Type ℓ} {B : Type κ} (o : Option A) (k : A → Option B) {b : B}
    → (o >>= k) ≡ some b
    → (a : A) × (o ≡ some a) × (k a ≡ some b)
bind-inv none k e = cc
bind-inv (some a) k e = (a, refl, e)

pub and_some-inv :
    (a b : Bool) → ◌≡◌ {A = Option Bool} (some (a && b)) (some true) → (a ≡ true) × (b ≡ true)
and_some-inv a b h = ground arith

pub some-inj {ℓ} : {A : Type ℓ} {a b : A} → some a ≡ some b → a ≡ b
some-inj e = cc

pub none-ne-some {ℓ} : {A : Type ℓ} {a : A} → ¬ (none ≡ some a)
none-ne-some e = cc

pub if_true {ℓ} : {A : Type ℓ} (b : Bool) (x y : A) → b ≡ true → (if b then x else y) ≡ x
if_true true x y h = refl
if_true false x y h = ground arith

pub if_false {ℓ} : {A : Type ℓ} (b : Bool) (x y : A) → b ≡ false → (if b then x else y) ≡ y
if_false false x y h = refl
if_false true x y h = ground arith

-- What holds of both branches holds of the conditional.
pub if_both {ℓ κ} :
    {A : Type ℓ} (P : A → Type κ) (b : Bool) (x y : A) → P x → P y → P (if b then x else y)
if_both P true x y h k = h
if_both P false x y h k = k

pub and_false : (a b : Bool) → a ≡ false → (a && b) ≡ false
and_false a b h = ground arith
