-- ===== src/WgServer/Addresses/Allocation.antt =====
-- What `allocateIP` (internal/wgserver/server.go) hands out.
use wg_proxy.Common.{
  ℕ, zero, suc, ◌+◌, ◌≤◌, ◌<◌, ◌≡◌, ◌≢◌, ◌↔◌, ◌⊎◌, inl, inr, refl, true, false, not, Option, none,
  some, List, [], ◌∷◌, ◌++◌, arith, Bool-cases, and-eq-true, All,
}
use native.Mathlib.Decide.{dec_le}
use wg_proxy.Common.Bytes.{Bytes, codes, bytes_eq_iff}
use wg_proxy.Common.Errors.{message, ok, err}
use wg_proxy.WgServer.Peers.{Peer}
use wg_proxy.WgServer.Addresses.{
  Subnet, contains, set_last, mem_text, used, is_free, search_from, none_left, allocate_ip,
}

-- The text is none of a list.
abbrev pub IsNone : Bytes → List Bytes → Type 0
IsNone s = All (λ t. s ≢ t)

mem_text-IsNone : (s : Bytes) (ts : List Bytes) → mem_text s ts ≡ false → IsNone s ts
unfolding mem_text
mem_text-IsNone s [] h = tt
mem_text-IsNone s (t ∷ ts) h =
    (ground (arith, bytes_eq_iff s t), mem_text-IsNone s ts (ground (arith)))

IsNone-mem_text : (s : Bytes) (ts : List Bytes) → IsNone s ts → mem_text s ts ≡ false
unfolding mem_text
IsNone-mem_text s [] h = refl
IsNone-mem_text s (t ∷ ts) (h, hs) = ground (arith, bytes_eq_iff s t, IsNone-mem_text s ts hs)

module _ (ip_text : List ℕ → Bytes) (net : Subnet) (taken : List Bytes) where
  -- The host number `i` is in the subnet and its text is not in use.
  abbrev pub IsAvailable : ℕ → Type 0
  IsAvailable i =
      (contains net (set_last net.ip i) ≡ true) × IsNone (ip_text (set_last net.ip i)) taken

  is_free_iff : (i : ℕ) → (is_free ip_text net taken i ≡ true) ↔ IsAvailable i
  is_free_iff i =
      let text = ip_text (set_last net.ip i) in
      (
        λ h.
            let (inside, unused) =
              and-eq-true (contains net (set_last net.ip i)) (not (mem_text text taken)) h in
            (inside, mem_text-IsNone text taken (ground arith)),
        λ w. let unused = IsNone-mem_text text taken w.1 in rw (w.0, unused),
      )

  -- The first host number that is available, if one is, in the range of the loop.
  abbrev pub Finds : ℕ → ℕ → Option Bytes → Type 0
  Finds lo hi none = (i : ℕ) → lo ≤ i → i < hi → ¬ IsAvailable i
  Finds lo hi (some s) =
      (i : ℕ) × (lo ≤ i)
      × (i < hi)
      × (s ≡ ip_text (set_last net.ip i))
      × IsAvailable i
      × ((j : ℕ) → lo ≤ j → j < i → ¬ IsAvailable j)

  search_from-Finds :
      (rounds lo hi : ℕ) → lo + rounds ≡ hi → Finds lo hi (search_from ip_text net taken rounds lo)
  unfolding search_from
  search_from-Finds zero lo hi e = λ i h k _. omega arith
  search_from-Finds (suc rounds) lo hi e = elim (Bool-cases (is_free ip_text net taken lo)) [
    | inl free ↦
        rw free
          (lo, omega arith, omega arith, refl, (is_free_iff lo).0 free, λ j h k _. omega arith)
    | inr busy ↦ rw busy (
        later (search_from ip_text net taken rounds (lo + 1)) busy
          (search_from-Finds rounds (lo + 1) hi (omega arith)))
  ]
    where
      at_lo :
          is_free ip_text net taken lo ≡ false → (j : ℕ) → lo ≤ j → ¬ (lo + 1 ≤ j) → ¬ IsAvailable j
      at_lo busy j h k a =
          let e : j ≡ lo = omega arith in let free = (is_free_iff lo).1 (rw e at a) in cc

      later :
          (o : Option Bytes)
          → is_free ip_text net taken lo ≡ false
          → Finds (lo + 1) hi o
          → Finds lo hi o
      later none busy all =
          λ i h k. elim (dec_le (lo + 1) i) [ yes p ↦ all i p k | no p ↦ at_lo busy i h p ]
      later (some s) busy (i, h, k, same, free, first) = (
        i,
        omega arith,
        k,
        same,
        free,
        λ j h' k'. elim (dec_le (lo + 1) j) [ yes p ↦ first j p k' | no p ↦ at_lo busy j h' p ],
      )

none_left-cases :
    (configured : Bytes) (o : Option Bytes)
    → ((s : Bytes) × (o ≡ some s) × (none_left configured o ≡ ok s))
      ⊎ ((o ≡ none)
          × (none_left configured o
              ≡ err (message (codes "no available IPs in subnet " ++ configured))))
unfolding none_left
none_left-cases configured none = inr (refl, refl)
none_left-cases configured (some s) = inl (s, refl, refl)

-- In a subnet that parses, `allocateIP` hands out the address with the first of the host numbers 2
-- to 253 that lies in the subnet and is neither the server's address nor that of a client. It fails
-- exactly where no such number is left.
pub allocate_ip-first :
    (ip_text : List ℕ → Bytes) (configured : Bytes) (net : Subnet) (peers : List Peer)
    → ((s : Bytes) × (allocate_ip ip_text configured (ok net) peers ≡ ok s)
        × Finds ip_text net (used ip_text (ok net) peers) 2 254 (some s))
      ⊎ ((allocate_ip ip_text configured (ok net) peers
            ≡ err (message (codes "no available IPs in subnet " ++ configured)))
          × Finds ip_text net (used ip_text (ok net) peers) 2 254 none)
unfolding allocate_ip
allocate_ip-first ip_text configured net peers =
    let taken = used ip_text (ok net) peers in
    let o = search_from ip_text net taken 252 2 in
    let found = search_from-Finds ip_text net taken 252 2 254 (omega arith) in
    elim (none_left-cases configured o) [
      | inl (s, e, r) ↦ inl (s, r, rw e at found)
      | inr (e, r) ↦ inr (r, rw e at found)
    ]
