-- ===== src/Dashboard/Broadcast.antt =====
-- The rounds of `broadcastLoop` (internal/web/dashboard.go). The map of clients has no order: Go
-- ranges over it in an order that differs from round to round. Its keys are lists up to their order
-- here, a channel is a number, and the channels themselves are in a store.
use mathlib.Core.Path.{fun_ext, ap₂}
use mathlib.Core.HLevel.{→_set}
use mathlib.Core.List.{Memᴰ, Permᴰ}
use mathlib.Core.List.Memᴰ
use mathlib.Core.Quot
use mathlib.Core.Quot.{Quot}
use wg_proxy.Common.{
  ℕ, map, ◌≢◌, inl, inr, ◌≡◌, refl, sym, ap, ◌∙◌, List, [], ◌∷◌, ◌==◌, if◌then◌else◌, arith,
}
use wg_proxy.Common.Bytes.{Bytes}
use wg_proxy.Common.Errors.{GoError, Result, ok, err}
use wg_proxy.Dashboard.{Client, offer}

-- The channels, by their number.
abbrev pub Channels : Type 0
Channels = ℕ → Client

-- One round of the `for` statement.
unfoldable pub offer_to : Bytes → ℕ → Channels → Channels
offer_to m k channels j = if j == k then offer m (channels j) else channels j

-- `for ch := range d.clients`, in one of the orders.
unfoldable pub range_offer : Bytes → List ℕ → Channels → Channels
unfolding offer_to
range_offer m [] channels = channels
range_offer m (k ∷ ks) channels = range_offer m ks (offer_to m k channels)

offer_to_comm :
    (m : Bytes) (k l : ℕ) (channels : Channels)
    → offer_to m l (offer_to m k channels) ≡ offer_to m k (offer_to m l channels)
unfolding offer_to
offer_to_comm m k l channels = fun_ext λ j. ground arith

pub range_offer-perm :
    (m : Bytes) {ks ls : List ℕ} (channels : Channels)
    → Permᴰ ks ls
    → range_offer m ks channels ≡ range_offer m ls channels
unfolding range_offer
range_offer-perm m channels (Permᴰ.nil) = refl
range_offer-perm m channels (Permᴰ.cons e p) = rw e (range_offer-perm m _ p)
range_offer-perm m channels (Permᴰ.swap {a = a} {b = b} {l = l} e f) =
    rw (sym e, sym f) (ap (range_offer m l) (offer_to_comm m a b channels))
range_offer-perm m channels (Permᴰ.trans p q) =
    range_offer-perm m channels p ∙ range_offer-perm m channels q

-- The keys of `d.clients`.
abbrev pub ClientKeys : Type 0
ClientKeys = Quot (Permᴰ {A = ℕ})

pub Channels-IsSet : IsSet Channels
Channels-IsSet = hlevel

-- A round of the loop, with the coding of the state.
unfoldable pub broadcast : Result Bytes → ClientKeys → Channels → Channels
broadcast (err e) clients channels = channels
broadcast (ok m) clients channels =
    Quot.lift (→_set Channels-IsSet) (range_offer m)
      (λ ks ls p. fun_ext λ ch. range_offer-perm m ch p) clients channels

-- The keys of a map: no two are the same.
abbrev pub AreKeys : List ℕ → Type 0
AreKeys [] = Unit
AreKeys (k ∷ ks) = ¬ Memᴰ k ks × AreKeys ks

range_offer-other :
    (m : Bytes) (ks : List ℕ) (channels : Channels) (j : ℕ)
    → ¬ Memᴰ j ks
    → range_offer m ks channels j ≡ channels j
unfolding range_offer offer_to
range_offer-other m [] channels j h = refl
range_offer-other m (k ∷ ks) channels j h =
    let other : j ≢ k = λ e. h (Memᴰ.head e) in
    range_offer-other m ks _ j (λ i. h (Memᴰ.tail i)) ∙ ground arith

range_offer-key :
    (m : Bytes) (ks : List ℕ) (channels : Channels) (j : ℕ)
    → AreKeys ks
    → Memᴰ j ks
    → range_offer m ks channels j ≡ offer m (channels j)
unfolding range_offer offer_to
range_offer-key m [] channels j h i = absurd (Memᴰ.not-nil i)
range_offer-key m (k ∷ ks) channels j (apart, h) i = elim (Memᴰ.cases_cons i) [
  | inl here ↦
      let other : ¬ Memᴰ j ks = λ i. apart (rw here at i) in
      range_offer-other m ks _ j other ∙ ground arith
  | inr later ↦
      let other : j ≢ k = λ e. apart (rw e at later) in
      range_offer-key m ks _ j h later ∙ ap (offer m) (ground arith)
]

map_at :
    (f : Client → Client) (after channels : Channels) (ks : List ℕ)
    → ((k : ℕ) → Memᴰ k ks → after k ≡ f (channels k))
    → map after ks ≡ map f (map channels ks)
map_at f after channels [] h = refl
map_at f after channels (k ∷ ks) h =
    ap₂ ◌∷◌ (h k (Memᴰ.head refl)) (map_at f after channels ks (λ l i. h l (Memᴰ.tail i)))

-- A round of the loop offers its message once to each client, whatever the order in which the map
-- is ranged over, and touches no other channel; where the state could not be coded, it changes
-- nothing.
pub broadcast-offers :
    (m : Bytes) (e : GoError) (ks : List ℕ) (channels : Channels)
    → AreKeys ks
    → (map (broadcast (ok m) (Quot.mk ks) channels) ks ≡ map (offer m) (map channels ks))
      × ((j : ℕ) → ¬ Memᴰ j ks → broadcast (ok m) (Quot.mk ks) channels j ≡ channels j)
      × ((ls : List ℕ)
          → Permᴰ ks ls
          → range_offer m ls channels ≡ broadcast (ok m) (Quot.mk ks) channels)
      × (broadcast (err e) (Quot.mk ks) channels ≡ channels)
unfolding broadcast
broadcast-offers m e ks channels h = (
  map_at (offer m) _ channels ks (λ k i. range_offer-key m ks channels k h i),
  λ j i. range_offer-other m ks channels j i,
  λ ls p. sym (range_offer-perm m channels p),
  refl,
)
