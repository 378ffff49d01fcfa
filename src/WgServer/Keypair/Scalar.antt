-- ===== src/WgServer/Keypair/Scalar.antt =====
-- The private keys are Curve25519 scalars (internal/wgserver/server.go).
use Prim.Native.Nat.{bit_and, bit_or}
use wg_proxy.Common.{
  ℕ, zero, suc, ◌+◌, ◌*◌, ◌%◌, ◌^◌, ◌≤◌, ◌<◌, ◌≡◌, refl, sym, ap, ◌∙◌, Bool, true, ◌&&◌, ◌==◌, ltb,
  leb, List, [], ◌∷◌, length, All, and-eq-true, Bool-cases, inl, inr, ==_iff, ltb→lt, leb→le, arith,
}
use wg_proxy.Common.Bytes.{Bytes, IsByte}
use wg_proxy.Common.Errors.{Result, ok, err, ok-inj, ok-ne-err}
use wg_proxy.WgServer.Keypair.{update_at, clamp, derive_public_key, with_public, generate_key_pair}

-- The number that little-endian bytes stand for.
unfoldable pub little_endian : List ℕ → ℕ
little_endian [] = 0
little_endian (b ∷ bs) = b + 256 * little_endian bs

-- A test of all numbers below a bound.
unfoldable all_below : ℕ → (ℕ → Bool) → Bool
all_below zero p = true
all_below (suc n) p = p n && all_below n p

all_below-test : (n : ℕ) (p : ℕ → Bool) (k : ℕ) → all_below n p ≡ true → k < n → p k ≡ true
unfolding all_below
all_below-test zero p k h l = absurd (omega arith)
all_below-test (suc n) p k h l =
    let (here, below) = and-eq-true (p n) (all_below n p) h in
    elim (Bool-cases (k == n)) [
      | inl e ↦ ap p ((==_iff k n).0 e) ∙ here
      | inr e ↦ all_below-test n p k below (ground arith)
    ]

-- The two bytes that are changed, for each of their values.
low : (b : ℕ) → IsByte b → (bit_and b 248 % 8 ≡ 0) × (bit_and b 248 < 256)
unfolding all_below
low b h =
    let test =
      and-eq-true _ _
        (all_below-test 256 (λ k. (bit_and k 248 % 8 == 0) && ltb (bit_and k 248) 256) b refl h) in
    ((==_iff _ _).0 test.0, ltb→lt _ _ test.1)

high : (b : ℕ) → IsByte b → (64 ≤ bit_or (bit_and b 127) 64) × (bit_or (bit_and b 127) 64 < 128)
unfolding all_below
high b h =
    let test = and-eq-true _ _ (
      all_below-test 256
        (λ k. leb 64 (bit_or (bit_and k 127) 64) && ltb (bit_or (bit_and k 127) 64) 128) b refl
        h) in
    (leb→le _ _ test.0, ltb→lt _ _ test.1)

update_at-twice :
    (n : ℕ) (f g : ℕ → ℕ) (bs : List ℕ)
    → update_at n g (update_at n f bs) ≡ update_at n (λ b. g (f b)) bs
unfolding update_at
update_at-twice n f g [] = refl
update_at-twice zero f g (b ∷ bs) = refl
update_at-twice (suc n) f g (b ∷ bs) = ap (◌∷◌ b) (update_at-twice n f g bs)

length-update_at : (n : ℕ) (f : ℕ → ℕ) (bs : List ℕ) → length (update_at n f bs) ≡ length bs
unfolding update_at
length-update_at n f [] = refl
length-update_at zero f (b ∷ bs) = refl
length-update_at (suc n) f (b ∷ bs) = ap suc (length-update_at n f bs)

-- `x` behind `n` bytes that are zero.
unfoldable shifted : ℕ → ℕ → ℕ
shifted zero x = x
shifted (suc n) x = 256 * shifted n x

-- The highest byte decides in which range the number lies.
highest_byte :
    (n : ℕ) (f : ℕ → ℕ) (bs : List ℕ)
    → ((b : ℕ) → IsByte b → (64 ≤ f b) × (f b < 128))
    → length bs ≡ n + 1
    → All IsByte bs
    → (shifted n 64 ≤ little_endian (update_at n f bs))
      × (little_endian (update_at n f bs) < shifted n 128)
unfolding update_at little_endian shifted
highest_byte n f [] range size bytes = absurd (omega arith)
highest_byte zero f (b ∷ []) range size (h, _) = omega (arith, range b h)
highest_byte zero f (b ∷ c ∷ bs) range size bytes = absurd (omega arith)
highest_byte (suc n) f (b ∷ bs) range size (h, hs) =
    omega (arith, highest_byte n f bs range (omega arith) hs)

-- The number of a key after the three assignments.
clamp-scalar :
    (key : List ℕ)
    → length key ≡ 32
    → All IsByte key
    → (length (clamp key) ≡ 32)
      × (little_endian (clamp key) % 8 ≡ 0)
      × (2 ^ 254 ≤ little_endian (clamp key))
      × (little_endian (clamp key) < 2 ^ 255)
unfolding clamp update_at little_endian shifted
clamp-scalar [] size bytes = absurd (omega arith)
clamp-scalar (b ∷ bs) size (h, hs) =
    let first = low b h in
    let f : ℕ → ℕ = λ k. bit_or (bit_and k 127) 64 in
    let same : update_at 30 (λ k. bit_or k 64) (update_at 30 (λ k. bit_and k 127) bs)
        ≡ update_at 30 f bs =
      update_at-twice 30 (λ k. bit_and k 127) (λ k. bit_or k 64) bs in
    let range = highest_byte 30 f bs high (omega arith) hs in
    let below : shifted 30 64 ≡ 2 ^ 246 = refl in
    let above : shifted 30 128 ≡ 2 ^ 247 = refl in
    let at_least : 2 ^ 246 ≤ little_endian (update_at 30 f bs) = rw (← below) range.0 in
    let less : little_endian (update_at 30 f bs) < 2 ^ 247 = rw (← above) range.1 in
    rw same (
      omega (arith, length-update_at 30 f bs),
      omega (arith, first.0),
      omega (arith, at_least),
      omega (arith, less, first.1),
    )

with_public-inv :
    (k private_key public_key : Bytes) (r : Result Bytes)
    → with_public k r ≡ ok (private_key, public_key)
    → (k ≡ private_key) × (r ≡ ok public_key)
with_public-inv k private_key public_key (err e) h = absurd (ok-ne-err (sym h))
with_public-inv k private_key public_key (ok p) h =
    (ap (λ z. z.0) (ok-inj h), ap (λ z. ok z.1) (ok-inj h))

-- A private key that is generated from 32 random bytes encodes 32 bytes whose little-endian number
-- is a multiple of 8 from 2^254 on and below 2^255, a Curve25519 scalar, and the public key is what
-- `wg pubkey` answers for it.
pub generate_key_pair-scalar :
    (encode : List ℕ → Bytes) (pubkey : Bytes → Result Bytes) (key : List ℕ)
    (private_key public_key : Bytes)
    → length key ≡ 32
    → All IsByte key
    → generate_key_pair encode pubkey (ok key) ≡ ok (private_key, public_key)
    → (k : List ℕ) × (encode k ≡ private_key)
      × (length k ≡ 32)
      × (little_endian k % 8 ≡ 0)
      × (2 ^ 254 ≤ little_endian k)
      × (little_endian k < 2 ^ 255)
      × (derive_public_key (pubkey private_key) ≡ ok public_key)
unfolding generate_key_pair
generate_key_pair-scalar encode pubkey key private_key public_key size bytes e =
    let (length_kept, divided, from, below) = clamp-scalar key size bytes in
    let (named, derived) = with_public-inv (encode (clamp key)) private_key public_key _ e in
    (
      clamp key,
      named,
      length_kept,
      divided,
      from,
      below,
      ap (λ z. derive_public_key (pubkey z)) (sym named) ∙ derived,
    )
