-- ===== src/Common/Lists.antt =====
-- Lists measured and indexed by native numbers.
use Prim.Native.Nat.{ℕ, zero, suc, ◌+◌, ◌-◌, ◌<◌, ◌≤◌}
use mathlib.Core.Path.{◌≡◌, refl, ap, sym, subst}
use mathlib.Core.Bool.{Bool, true}
use mathlib.Core.List.{List, [], ◌∷◌, ◌++◌, map, Memᴰ}
use mathlib.Core.Option.{Option, none, some}
use native.Mathlib.Omega.{arith}
use mathlib.Core.List.Memᴰ
use mathlib.Core.Logic.{inl, inr}
use wg_proxy.Common.Tests.{Bool-cases, if◌then◌else◌, Defined, defined}

module _ {ℓ} {A : Type ℓ} where
  abbrev pub length : List A → ℕ
  length [] = 0
  length (x ∷ xs) = suc (length xs)

  abbrev pub get_elem? : List A → ℕ → Option A
  get_elem? [] i = none
  get_elem? (x ∷ xs) zero = some x
  get_elem? (x ∷ xs) (suc i) = get_elem? xs i

  abbrev pub take : ℕ → List A → List A
  take zero xs = []
  take (suc n) [] = []
  take (suc n) (x ∷ xs) = x ∷ take n xs

  abbrev pub drop : ℕ → List A → List A
  drop zero xs = xs
  drop (suc n) [] = []
  drop (suc n) (x ∷ xs) = drop n xs

  abbrev pub replicate : ℕ → A → List A
  replicate zero a = []
  replicate (suc n) a = a ∷ replicate n a

  -- The entries that pass a Boolean test, in order.
  abbrev pub keep : (A → Bool) → List A → List A
  keep p [] = []
  keep p (x ∷ xs) = if p x then x ∷ keep p xs else keep p xs

  pub length-append : (xs ys : List A) → length (xs ++ ys) ≡ length xs + length ys
  length-append [] ys = omega arith
  length-append (x ∷ xs) ys = omega (arith, length-append xs ys)

  pub length-take-le : (n : ℕ) (xs : List A) → length (take n xs) ≤ n
  length-take-le zero xs = omega arith
  length-take-le (suc n) [] = omega arith
  length-take-le (suc n) (x ∷ xs) = omega (arith, length-take-le n xs)

  pub length-take_of_le : (n : ℕ) (xs : List A) → n ≤ length xs → length (take n xs) ≡ n
  length-take_of_le zero xs h = refl
  length-take_of_le (suc n) [] h = omega arith
  length-take_of_le (suc n) (x ∷ xs) h = omega (arith, length-take_of_le n xs)

  pub length-drop : (n : ℕ) (xs : List A) → length (drop n xs) ≡ length xs - n
  length-drop zero xs = omega arith
  length-drop (suc n) [] = omega arith
  length-drop (suc n) (x ∷ xs) = omega (arith, length-drop n xs)

  pub take-append-drop : (n : ℕ) (xs : List A) → take n xs ++ drop n xs ≡ xs
  take-append-drop zero xs = refl
  take-append-drop (suc n) [] = refl
  take-append-drop (suc n) (x ∷ xs) = ap (◌∷◌ x) (take-append-drop n xs)

  pub length-replicate : (n : ℕ) (a : A) → length (replicate n a) ≡ n
  length-replicate zero a = refl
  length-replicate (suc n) a = ap suc (length-replicate n a)

  pub get_elem?-some : (xs : List A) (i : ℕ) → i < length xs → (a : A) × (get_elem? xs i ≡ some a)
  get_elem?-some [] i h = elim h [ ]
  get_elem?-some (x ∷ xs) zero h = (x, refl)
  get_elem?-some (x ∷ xs) (suc i) h = get_elem?-some xs i (omega arith)

  pub get_elem?-Defined : (xs : List A) (i : ℕ) → i < length xs → Defined (get_elem? xs i)
  get_elem?-Defined xs i h = let (a, e) = get_elem?-some xs i h in defined a e

  pub length-keep-le : (p : A → Bool) (xs : List A) → length (keep p xs) ≤ length xs
  length-keep-le p [] = omega arith
  length-keep-le p (x ∷ xs) = ground (arith, length-keep-le p xs)

  -- An append at the length of the first part is a cut there.
  pub take-length-append : (xs ys : List A) → take (length xs) (xs ++ ys) ≡ xs
  take-length-append [] ys = refl
  take-length-append (x ∷ xs) ys = ap (◌∷◌ x) (take-length-append xs ys)

  pub drop-length-append : (xs ys : List A) → drop (length xs) (xs ++ ys) ≡ ys
  drop-length-append [] ys = refl
  drop-length-append (x ∷ xs) ys = drop-length-append xs ys

  pub get_elem?-append_length :
      (xs ys : List A) (y : A) → get_elem? (xs ++ (y ∷ ys)) (length xs) ≡ some y
  get_elem?-append_length [] ys y = refl
  get_elem?-append_length (x ∷ xs) ys y = get_elem?-append_length xs ys y

  pub get_elem?-append_suc :
      (xs ys : List A) (y z : A) → get_elem? (xs ++ (y ∷ z ∷ ys)) (suc (length xs)) ≡ some z
  get_elem?-append_suc [] ys y z = refl
  get_elem?-append_suc (x ∷ xs) ys y z = get_elem?-append_suc xs ys y z

  pub drop-suc-length_append :
      (xs ys : List A) (y : A) → drop (suc (length xs)) (xs ++ (y ∷ ys)) ≡ ys
  drop-suc-length_append [] ys y = refl
  drop-suc-length_append (x ∷ xs) ys y = drop-suc-length_append xs ys y

  -- A list is cut at an index that it has.
  pub cut_at :
      (xs : List A) (n : ℕ) (y : A)
      → get_elem? xs n ≡ some y
      → xs ≡ take n xs ++ (y ∷ drop (suc n) xs)
  cut_at [] n y e = ground arith
  cut_at (x ∷ xs) zero y e = ground arith
  cut_at (x ∷ xs) (suc n) y e = ap (◌∷◌ x) (cut_at xs n y e)

module _ {ℓ κ} {A : Type ℓ} (P : A → Type κ) where
  abbrev pub All : List A → Type κ
  All [] = Unit
  All (x ∷ xs) = P x × All xs

  pub All-append : (xs ys : List A) → All xs → All ys → All (xs ++ ys)
  All-append [] ys _ hy = hy
  All-append (x ∷ xs) ys (px, hx) hy = (px, All-append xs ys hx hy)

  -- One entry replaced by several.
  pub All-replace :
      (before after : List A) (x : A) (xs : List A)
      → All (before ++ (x ∷ after))
      → All xs
      → All (before ++ (xs ++ after))
  All-replace [] after x xs (_, h) k = All-append xs after k h
  All-replace (b ∷ before) after x xs (p, h) k = (p, All-replace before after x xs h k)

  pub All-at : (before after : List A) (x : A) → All (before ++ (x ∷ after)) → P x
  All-at [] after x (p, _) = p
  All-at (b ∷ before) after x (_, h) = All-at before after x h

  pub All-mem : (xs : List A) {a : A} → All xs → Memᴰ a xs → P a
  All-mem [] h m = absurd (Memᴰ.not-nil m)
  All-mem (x ∷ xs) (p, h) m = elim (Memᴰ.cases_cons m) [
    | inl e ↦ subst P (sym e) p
    | inr later ↦ All-mem xs h later
  ]

  pub All-get_elem? : (xs : List A) (i : ℕ) (a : A) → All xs → get_elem? xs i ≡ some a → P a
  All-get_elem? [] i a h e = ground arith
  All-get_elem? (x ∷ xs) zero a (h, _) e = ground arith
  All-get_elem? (x ∷ xs) (suc i) a (_, h) e = All-get_elem? xs i a h e

pub All-imp {ℓ κ μ} :
    {A : Type ℓ} (P : A → Type κ) (Q : A → Type μ) (xs : List A)
    → ((a : A) → P a → Q a)
    → All P xs
    → All Q xs
All-imp P Q [] f h = tt
All-imp P Q (x ∷ xs) f (p, h) = (f x p, All-imp P Q xs f h)

pub All-zip {ℓ κ μ ν} :
    {A : Type ℓ} (P : A → Type κ) (Q : A → Type μ) (R : A → Type ν) (xs : List A)
    → ((a : A) → P a → Q a → R a)
    → All P xs
    → All Q xs
    → All R xs
All-zip P Q R [] f h k = tt
All-zip P Q R (x ∷ xs) f (p, h) (q, k) = (f x p q, All-zip P Q R xs f h k)

pub length-map {ℓ κ} :
    {A : Type ℓ} {B : Type κ} (xs : List A) (f : A → B) → length (map f xs) ≡ length xs
length-map [] f = refl
length-map (x ∷ xs) f = ap suc (length-map xs f)

module _ {ℓ} {A : Type ℓ} where
  pub get_elem?-mem : (xs : List A) (i : ℕ) (a : A) → get_elem? xs i ≡ some a → Memᴰ a xs
  get_elem?-mem [] i a e = ground arith
  get_elem?-mem (x ∷ xs) zero a e = Memᴰ.head (ground arith)
  get_elem?-mem (x ∷ xs) (suc i) a e = Memᴰ.tail (get_elem?-mem xs i a e)

  -- What `keep` keeps was there, and passes the test.
  pub mem-keep :
      (p : A → Bool) (xs : List A) (a : A) → Memᴰ a (keep p xs) → Memᴰ a xs × (p a ≡ true)
  mem-keep p [] a m = absurd (Memᴰ.not-nil m)
  mem-keep p (x ∷ xs) a m = elim (Bool-cases (p x)) [
    | inl e ↦ elim (Memᴰ.cases_cons (rw e at m)) [
      | inl same ↦ (Memᴰ.head same, rw same e)
      | inr later ↦ let (r, t) = mem-keep p xs a later in (Memᴰ.tail r, t)
    ]
    | inr e ↦ let (r, t) = mem-keep p xs a (rw e at m) in (Memᴰ.tail r, t)
  ]

  pub take-suc-drop :
      (xs : List A) (i k : ℕ) (x : A)
      → get_elem? xs i ≡ some x
      → take (suc k) (drop i xs) ≡ x ∷ take k (drop (suc i) xs)
  take-suc-drop [] i k x e = ground arith
  take-suc-drop (y ∷ xs) zero k x e = ground arith
  take-suc-drop (y ∷ xs) (suc i) k x e = take-suc-drop xs i k x e

  pub take_all : (n : ℕ) (xs : List A) → length xs ≤ n → take n xs ≡ xs
  take_all zero [] h = refl
  take_all zero (x ∷ xs) h = absurd (omega arith)
  take_all (suc n) [] h = refl
  take_all (suc n) (x ∷ xs) h = ap (◌∷◌ x) (take_all n xs (omega arith))
