-- ===== src/Proxy/Retry/Replies.antt =====
-- What `tryBackend` (internal/proxy/retry.go) makes of a backend's stream.
use mathlib.Core.List.{append-nil}
use wg_proxy.Common.{
  ℕ, suc, ◌-◌, ◌≤◌, ◌<◌, ◌≡◌, ◌≢◌, ap, ◌∙◌, false, not, Option, none, some, [], ◌∷◌, ◌++◌, ◌==◌,
  inl, inr, Bool-cases, get_elem?-Defined, length, arith, Defined, Defined-bind, Defined-some,
  Defined-if, replicate, length-replicate, length-append, take-length-append, drop-length-append,
}
use wg_proxy.Common.Bytes.{Bytes}
use wg_proxy.Proxy.Conn.{Incoming, read_full, copy, fill}
use wg_proxy.Proxy.Conn.Laws.{read_full_lem, length-read_full}
use wg_proxy.Proxy.Retry.{
  try_backend, hello, forwarded, read_reply, read_address, read_domain, read_rest, rest_size,
}

length-fill : (size : ℕ) (bs : Bytes) → size < length (fill (suc size) bs)
length-fill size bs = omega (
  arith,
  length-append bs (replicate (suc size - length bs) 0),
  length-replicate {A = ℕ} (suc size - length bs) 0,
)

read_domain-Defined :
    (request : Bytes) (head : Bytes) (c : Incoming) → Defined (read_domain request head c)
unfolding read_domain
read_domain-Defined request head c =
    Defined-bind _ _
      (get_elem?-Defined (fill 1 (read_full 1 c).bytes) 0 (length-fill 0 (read_full 1 c).bytes))
      λ n _. Defined-some _

read_address-Defined :
    (request head : Bytes) (c : Incoming) → 4 ≤ length head → Defined (read_address request head c)
unfolding read_address
read_address-Defined request head c h =
    Defined-bind _ _ (get_elem?-Defined head 3 (omega arith)) λ kind _.
      Defined-if (kind == 3) _ _ (λ _. read_domain-Defined request head c) λ _. Defined-some _

read_reply-Defined : (request : Bytes) (c : Incoming) → Defined (read_reply request c)
unfolding read_reply
read_reply-Defined request c = elim (Bool-cases (read_full 4 c).full) [
  | inr short ↦ rw (short, read_reply) (Defined-some _)
  | inl full ↦
      let size = length-read_full 4 c full in
      rw (full, read_reply)
        (Defined-bind _ _ (get_elem?-Defined (read_full 4 c).bytes 1 (omega arith)) λ rep _.
          Defined-if (not (rep == 0)) _ _ (λ _. Defined-some _)
            λ _.
              read_address-Defined request (read_full 4 c).bytes (read_full 4 c).rest (omega arith))
]

-- Whatever a backend sends, `tryBackend` returns: it indexes no buffer past its end.
pub try_backend-Defined : (request : Bytes) (o : Option Incoming) → Defined (try_backend request o)
unfolding try_backend
try_backend-Defined request none = Defined-some _
try_backend-Defined request (some c) = elim (Bool-cases (read_full 2 c).full) [
  | inr short ↦ rw (short, try_backend) (Defined-some _)
  | inl full ↦
      let size = length-read_full 2 c full in
      rw (full, try_backend)
        (Defined-bind _ _ (get_elem?-Defined (read_full 2 c).bytes 1 (omega arith)) λ method _.
          Defined-if (not (method == 0)) _ _ (λ _. Defined-some _)
            λ _. read_reply-Defined request (read_full 2 c).rest)
]

-- A buffer that is full is left as it is.
fill_full : (bs : Bytes) → fill (length bs) bs ≡ bs
fill_full bs = let e : length bs - length bs ≡ 0 = omega arith in rw (e, append-nil)

module _ (request : Bytes) (c : Incoming) (kind : ℕ) (head body tail : Bytes) where
  -- The end of a reply whose length the address type fixes.
  read_rest-body :
      length body ≡ rest_size kind
      → copy c ≡ body ++ tail
      → (rest : Incoming) × (copy rest ≡ tail)
        × (read_rest request head (rest_size kind) c ≡ record {
          writes = forwarded request;
          conn = some rest;
          answer = head ++ body;
          erred = false;
        })
  read_rest-body len all =
      let fits : rest_size kind ≤ length (copy c) =
        rw (all, ← len) (omega (arith, length-append body tail)) in
      let (full, bytes, rest) = read_full_lem (rest_size kind) c fits in
      let same : (read_full (rest_size kind) c).bytes ≡ body =
        bytes ∙ rw (all, ← len) (take-length-append body tail) in
      (
        (read_full (rest_size kind) c).rest,
        rest ∙ rw (all, ← len) (drop-length-append body tail),
        rw (same, ← len, fill_full body),
      )

-- A backend that takes the no-auth method and reports success, with an address that is not a domain
-- name, is taken: it has been sent the greeting and the client's request, its reply to the client
-- is byte for byte the one it sent, and nothing of what follows the reply is lost, however the
-- stream is cut into segments.
pub try_backend-forwards :
    (request : Bytes) (c : Incoming) (version r0 r2 kind : ℕ) (body tail : Bytes)
    → kind ≢ 3
    → length body ≡ rest_size kind
    → copy c ≡ version ∷ 0 ∷ r0 ∷ 0 ∷ r2 ∷ kind ∷ (body ++ tail)
    → (rest : Incoming) × (copy rest ≡ tail)
      × (try_backend request (some c)
          ≡ some (record {
            writes = hello ∷ request ∷ [];
            conn = some rest;
            answer = r0 ∷ 0 ∷ r2 ∷ kind ∷ body;
            erred = false;
          }))
unfolding try_backend
try_backend-forwards request c version r0 r2 kind body tail other len all =
    let (full, bytes, left) = read_full_lem 2 c (rw all (omega arith)) in
    let left' : copy (read_full 2 c).rest ≡ r0 ∷ 0 ∷ r2 ∷ kind ∷ (body ++ tail) = rw all at left in
    let bytes' : (read_full 2 c).bytes ≡ version ∷ 0 ∷ [] = rw all at bytes in
    let d = (read_full 2 c).rest in
    let (full2, head, after) = read_full_lem 4 d (rw left' (omega arith)) in
    let head' : (read_full 4 d).bytes ≡ r0 ∷ 0 ∷ r2 ∷ kind ∷ [] = rw left' at head in
    let after' : copy (read_full 4 d).rest ≡ body ++ tail = rw left' at after in
    let (rest, gone, done) =
      read_rest-body request (read_full 4 d).rest kind (r0 ∷ 0 ∷ r2 ∷ kind ∷ []) body tail len
        after' in
    let not_domain : (kind == 3) ≡ false = ground arith in
    (
      rest,
      gone,
      rw (full, bytes', try_backend)
          (rw (full2, head', read_reply) (rw (not_domain, read_address) (ap some done))),
    )
