-- ===== src/Proxy/Conn/Laws.antt =====
-- Reading a stream does not depend on how it was cut into segments.
use wg_proxy.Common.{
  leb→le, length-take_of_le, ℕ, zero, suc, ◌-◌, ◌≤◌, ◌<◌, ◌≡◌, refl, sym, ap, ◌∙◌, true, false,
  List, [], ◌∷◌, ◌++◌, length, take, drop, leb, ◌==◌, arith, length-append, inl, inr, Bool-cases,
  length-take-le,
}
use wg_proxy.Common.Bytes.{Bytes}
use wg_proxy.Proxy.Conn.{Incoming, got, read, read_full, copy}

-- A read delivers at most a buffer of bytes.
pub length-read :
    (size : ℕ) (cs : Incoming) (m : Bytes) (rest : Incoming)
    → read size cs ≡ got m rest
    → length m ≤ size
unfolding read
length-read size [] m rest e = cc
length-read size (c ∷ cs) m rest e = ground (arith, length-take-le size c)

take_short {ℓ} :
    {A : Type ℓ} (n : ℕ) (xs ys : List A) → n ≤ length xs → take n (xs ++ ys) ≡ take n xs
take_short zero xs ys h = refl
take_short (suc n) [] ys h = absurd (omega arith)
take_short (suc n) (x ∷ xs) ys h = ap (◌∷◌ x) (take_short n xs ys (omega arith))

drop_short {ℓ} :
    {A : Type ℓ} (n : ℕ) (xs ys : List A) → n ≤ length xs → drop n (xs ++ ys) ≡ drop n xs ++ ys
drop_short zero xs ys h = refl
drop_short (suc n) [] ys h = absurd (omega arith)
drop_short (suc n) (x ∷ xs) ys h = drop_short n xs ys (omega arith)

take_long {ℓ} :
    {A : Type ℓ} (n : ℕ) (xs ys : List A)
    → length xs ≤ n
    → take n (xs ++ ys) ≡ xs ++ take (n - length xs) ys
take_long zero [] ys h = refl
take_long zero (x ∷ xs) ys h = absurd (omega arith)
take_long (suc n) [] ys h = let e : suc n - 0 ≡ suc n = omega arith in rw e
take_long (suc n) (x ∷ xs) ys h =
    let e : suc n - suc (length xs) ≡ n - length xs = omega arith in
    rw e (ap (◌∷◌ x) (take_long n xs ys (omega arith)))

drop_long {ℓ} :
    {A : Type ℓ} (n : ℕ) (xs ys : List A)
    → length xs ≤ n
    → drop n (xs ++ ys) ≡ drop (n - length xs) ys
drop_long zero [] ys h = refl
drop_long zero (x ∷ xs) ys h = absurd (omega arith)
drop_long (suc n) [] ys h = let e : suc n - 0 ≡ suc n = omega arith in rw e
drop_long (suc n) (x ∷ xs) ys h =
    let e : suc n - suc (length xs) ≡ n - length xs = omega arith in
    rw e (drop_long n xs ys (omega arith))

not_le→leb : (a b : ℕ) → b < a → leb a b ≡ false
not_le→leb a b h = ground arith

suc-ne-zero : (n : ℕ) → (suc n == 0) ≡ false
suc-ne-zero n = ground arith

-- `io.ReadFull` succeeds exactly when the stream has the bytes, however it is cut into segments. It
-- then has read the first of them and leaves the others.
pub read_full_lem :
    (size : ℕ) (cs : Incoming)
    → size ≤ length (copy cs)
    → ((read_full size cs).full ≡ true)
      × ((read_full size cs).bytes ≡ take size (copy cs))
      × (copy (read_full size cs).rest ≡ drop size (copy cs))
unfolding read_full
read_full_lem zero [] h = (refl, refl, refl)
read_full_lem (suc n) [] h = absurd (omega arith)
read_full_lem zero (c ∷ cs) h = (refl, refl, refl)
read_full_lem (suc n) (c ∷ cs) h = elim (Bool-cases (leb (suc n) (length c))) [
  | inl whole ↦
      let k : suc n ≤ length c = leb→le _ _ whole in
      rw (suc-ne-zero n, whole)
        (refl, sym (take_short (suc n) c (copy cs) k), sym (drop_short (suc n) c (copy cs) k))
  | inr part ↦
      let k : length c ≤ suc n = ground arith in
      let (full, bytes, rest) =
        read_full_lem (suc n - length c) cs (omega (arith, length-append c (copy cs))) in
      rw (suc-ne-zero n, part)
        (
          full,
          ap (◌++◌ c) bytes ∙ sym (take_long (suc n) c (copy cs) k),
          rest ∙ sym (drop_long (suc n) c (copy cs) k),
        )
]

-- Otherwise it fails, with every byte of the stream read.
pub read_full-short :
    (size : ℕ) (cs : Incoming)
    → length (copy cs) < size
    → ((read_full size cs).full ≡ false) × ((read_full size cs).bytes ≡ copy cs)
unfolding read_full
read_full-short zero cs h = absurd (omega arith)
read_full-short (suc n) [] h = (ground arith, refl)
read_full-short (suc n) (c ∷ cs) h =
    let size = length-append c (copy cs) in
    let part : leb (suc n) (length c) ≡ false = not_le→leb _ _ (omega arith) in
    let (full, bytes) = read_full-short (suc n - length c) cs (omega arith) in
    rw (suc-ne-zero n, part) (full, ap (◌++◌ c) bytes)

-- A full buffer holds as many bytes as it has room for.
pub length-read_full :
    (size : ℕ) (cs : Incoming)
    → (read_full size cs).full ≡ true
    → length (read_full size cs).bytes ≡ size
unfolding read_full
length-read_full zero [] h = refl
length-read_full (suc n) [] h = ground arith
length-read_full zero (c ∷ cs) h = refl
length-read_full (suc n) (c ∷ cs) h = elim (Bool-cases (leb (suc n) (length c))) [
  | inl whole ↦ rw (suc-ne-zero n, whole) (length-take_of_le (suc n) c (leb→le _ _ whole))
  | inr part ↦
      let k : length c ≤ suc n = ground arith in
      let ih = length-read_full (suc n - length c) cs (rw (suc-ne-zero n, part) at h) in
      rw (suc-ne-zero n, part)
        (omega (arith, length-append c (read_full (suc n - length c) cs).bytes, ih))
]
