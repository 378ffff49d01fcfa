-- ===== src/WgServer/Keypair.antt =====
-- The generation of a key pair (internal/wgserver/server.go). `encode` is the standard encoding of
-- the package base64, and the random bytes are the result of `rand.Read`.
pub mod Scalar
use Prim.Native.Nat.{bit_and, bit_or}
use wg_proxy.Common.{ℕ, zero, suc, List, [], ◌∷◌}
use wg_proxy.Common.Bytes.{Bytes, codes}
use wg_proxy.Common.Errors.{wrapping, Result, ok, err}
use wg_proxy.Common.Strings.{trim_space}

-- An assignment to the element at an index.
unfoldable pub update_at : ℕ → (ℕ → ℕ) → List ℕ → List ℕ
update_at i f [] = []
update_at zero f (b ∷ bs) = f b ∷ bs
update_at (suc i) f (b ∷ bs) = b ∷ update_at i f bs

-- `key[0] &= 248`, `key[31] &= 127` and `key[31] |= 64`
unfoldable pub clamp : List ℕ → List ℕ
unfolding update_at
clamp key =
    update_at 31 (λ b. bit_or b 64)
      (update_at 31 (λ b. bit_and b 127) (update_at 0 (λ b. bit_and b 248) key))

-- `derivePublicKey`, given the output of `wg pubkey`
unfoldable pub derive_public_key : Result Bytes → Result Bytes
derive_public_key (err e) = err (wrapping (codes "deriving public key") e)
derive_public_key (ok out) = ok (trim_space out)

abbrev pub with_public : Bytes → Result Bytes → Result (Bytes × Bytes)
with_public private_key (err e) = err e
with_public private_key (ok public_key) = ok (private_key, public_key)

-- `generateKeyPair`, where `pubkey` answers for `wg pubkey`
unfoldable pub generate_key_pair :
    (List ℕ → Bytes) → (Bytes → Result Bytes) → Result (List ℕ) → Result (Bytes × Bytes)
unfolding clamp derive_public_key
generate_key_pair encode pubkey (err e) = err (wrapping (codes "generating random bytes") e)
generate_key_pair encode pubkey (ok key) =
    with_public (encode (clamp key)) (derive_public_key (pubkey (encode (clamp key))))
