-- ===== src/Proxy/Accepting/Closing.antt =====
-- What `Close` does to the accept loops (internal/proxy/server.go).
use mathlib.Core.List.{Memᴰ}
use mathlib.Core.List.Memᴰ
use wg_proxy.Common.{
  ℕ, ◌≡◌, ◌⊎◌, inl, inr, refl, sym, ◌∙◌, Bool, true, false, Option, none, some, List, ◌∷◌, ◌++◌,
  some-inj, none-ne-some, All,
}
use wg_proxy.Proxy.Accepting.{
  Sockets, Goroutine, listen, keep_listener, accept, failed, open_countries, close, close_main,
  close_countries, shut_main, Advances, cannot_listen, listens, keeps_listener, accepts,
  accept_fails, returns, goes_on, opens_countries, begins_close, closes_main, closes_countries,
}

-- A listener that `Close` finds.
abbrev pub Known : Sockets → ℕ → Type 0
Known s l = (s.listener ≡ some l) ⊎ Memᴰ l s.country_listeners

-- A goroutine that opens no listener, and whose listener is known if it has one.
abbrev pub IsSettled : Sockets → Goroutine → Type 0
IsSettled s listen = ⊥
IsSettled s (keep_listener l) = ⊥
IsSettled s open_countries = ⊥
IsSettled s (accept l) = Known s l
IsSettled s (failed l) = Known s l
IsSettled s close = Unit {0}
IsSettled s close_main = Unit {0}
IsSettled s close_countries = Unit {0}

abbrev pub is_close : Goroutine → Bool
is_close close = true
is_close _ = false

-- A `Close` that has not come to the main listener, or to those of the countries.
abbrev pub is_before_main : Goroutine → Bool
is_before_main close = true
is_before_main close_main = true
is_before_main _ = false

abbrev pub is_closing : Goroutine → Bool
is_closing close = true
is_closing close_main = true
is_closing close_countries = true
is_closing _ = false

abbrev pub Waits : (Goroutine → Bool) → List Goroutine → Type 0
Waits f ts = (t : Goroutine) × Memᴰ t ts × (f t ≡ true)

-- A goroutine is the one that makes the step, or it is still there.
pub Waits-step :
    (f : Goroutine → Bool) (before after ts : List Goroutine) (t : Goroutine)
    → Waits f (before ++ (t ∷ after))
    → (f t ≡ true) ⊎ Waits f (before ++ (ts ++ after))
Waits-step f before after ts t (u, m, e) = elim (Memᴰ.append_cases before m) [
  | inl front ↦ inr (u, Memᴰ.append_left (ts ++ after) front, e)
  | inr back ↦ elim (Memᴰ.cases_cons back) [
    | inl same ↦ inl (rw same at e)
    | inr behind ↦ inr (u, Memᴰ.append_right before (Memᴰ.append_right ts behind), e)
  ]
]

pub Waits-new :
    (f : Goroutine → Bool) (before after ts : List Goroutine)
    → Waits f ts
    → Waits f (before ++ (ts ++ after))
Waits-new f before after ts (u, m, e) = (u, Memᴰ.append_right before (Memᴰ.append_left after m), e)

abbrev pub MainShut : Sockets → Type 0
MainShut s = (l : ℕ) → s.listener ≡ some l → Memᴰ l s.shut

abbrev pub CountriesShut : Sockets → Type 0
CountriesShut s = (l : ℕ) → Memᴰ l s.country_listeners → Memᴰ l s.shut

shut_main-MainShut : (o : Option ℕ) (s : Sockets) → s.listener ≡ o → MainShut (shut_main o s)
shut_main-MainShut none s e l h = absurd (none-ne-some (sym e ∙ h))
shut_main-MainShut (some k) s e l h = Memᴰ.head (some-inj (sym h ∙ e))

shut_main-same :
    (o : Option ℕ) (s : Sockets)
    → ((shut_main o s).closed ≡ s.closed)
      × ((shut_main o s).listener ≡ s.listener)
      × ((shut_main o s).country_listeners ≡ s.country_listeners)
shut_main-same none s = (refl, refl, refl)
shut_main-same (some k) s = (refl, refl, refl)

-- One step, by what it does to the flag, to the main listener and to those of the countries.
pub Advances-closed :
    {s s' : Sockets} {t : Goroutine} {ts : List Goroutine}
    → Advances s t s' ts
    → (s.closed ≡ true) ⊎ (is_close t ≡ true)
    → s'.closed ≡ true
Advances-closed (begins_close s) h = refl
Advances-closed (closes_main s) (inl e) = (shut_main-same s.listener s).0 ∙ e
Advances-closed (closes_main s) (inr e) = cc
Advances-closed (closes_countries s) (inl e) = e
Advances-closed (closes_countries s) (inr e) = cc
Advances-closed (cannot_listen s) (inl e) = e
Advances-closed (cannot_listen s) (inr e) = cc
Advances-closed (listens s) (inl e) = e
Advances-closed (listens s) (inr e) = cc
Advances-closed (keeps_listener l s) (inl e) = e
Advances-closed (keeps_listener l s) (inr e) = cc
Advances-closed (accepts conn l s o) (inl e) = e
Advances-closed (accepts conn l s o) (inr e) = cc
Advances-closed (accept_fails l s) (inl e) = e
Advances-closed (accept_fails l s) (inr e) = cc
Advances-closed (returns l s c) h = c
Advances-closed (goes_on l s o) (inl e) = e
Advances-closed (goes_on l s o) (inr e) = cc
Advances-closed (opens_countries n s) (inl e) = e
Advances-closed (opens_countries n s) (inr e) = cc

pub Advances-main :
    {s s' : Sockets} {t : Goroutine} {ts : List Goroutine}
    → Advances s t s' ts
    → IsSettled s t
    → MainShut s ⊎ (is_before_main t ≡ true)
    → MainShut s' ⊎ Waits is_before_main ts
Advances-main (cannot_listen s) k h = absurd k
Advances-main (listens s) k h = absurd k
Advances-main (keeps_listener l s) k h = absurd k
Advances-main (opens_countries n s) k h = absurd k
Advances-main (begins_close s) k h = inr (close_main, Memᴰ.head refl, refl)
Advances-main (closes_main s) k h = inl (shut_main-MainShut s.listener s refl)
Advances-main (closes_countries s) k (inl h) =
    inl λ l e. Memᴰ.append_right s.country_listeners (h l e)
Advances-main (closes_countries s) k (inr e) = cc
Advances-main (accepts conn l s o) k (inl h) = inl h
Advances-main (accepts conn l s o) k (inr e) = cc
Advances-main (accept_fails l s) k (inl h) = inl h
Advances-main (accept_fails l s) k (inr e) = cc
Advances-main (returns l s c) k (inl h) = inl h
Advances-main (returns l s c) k (inr e) = cc
Advances-main (goes_on l s o) k (inl h) = inl h
Advances-main (goes_on l s o) k (inr e) = cc

pub Advances-countries :
    {s s' : Sockets} {t : Goroutine} {ts : List Goroutine}
    → Advances s t s' ts
    → IsSettled s t
    → CountriesShut s ⊎ (is_closing t ≡ true)
    → CountriesShut s' ⊎ Waits is_closing ts
Advances-countries (cannot_listen s) k h = absurd k
Advances-countries (listens s) k h = absurd k
Advances-countries (keeps_listener l s) k h = absurd k
Advances-countries (opens_countries n s) k h = absurd k
Advances-countries (begins_close s) k h = inr (close_main, Memᴰ.head refl, refl)
Advances-countries (closes_main s) k h = inr (close_countries, Memᴰ.head refl, refl)
Advances-countries (closes_countries s) k h = inl λ l m. Memᴰ.append_left s.shut m
Advances-countries (accepts conn l s o) k (inl h) = inl h
Advances-countries (accepts conn l s o) k (inr e) = cc
Advances-countries (accept_fails l s) k (inl h) = inl h
Advances-countries (accept_fails l s) k (inr e) = cc
Advances-countries (returns l s c) k (inl h) = inl h
Advances-countries (returns l s c) k (inr e) = cc
Advances-countries (goes_on l s o) k (inl h) = inl h
Advances-countries (goes_on l s o) k (inr e) = cc

-- A settled goroutine knows what it knew, and leaves settled ones.
pub Advances-IsSettled :
    {s s' : Sockets} {t : Goroutine} {ts : List Goroutine}
    → Advances s t s' ts
    → IsSettled s t
    → ((s'.listener ≡ s.listener) × (s'.country_listeners ≡ s.country_listeners))
      × All (IsSettled s') ts
Advances-IsSettled (cannot_listen s) k = absurd k
Advances-IsSettled (listens s) k = absurd k
Advances-IsSettled (keeps_listener l s) k = absurd k
Advances-IsSettled (opens_countries n s) k = absurd k
Advances-IsSettled (begins_close s) k = ((refl, refl), (tt, tt))
Advances-IsSettled (closes_main s) k =
    let same = shut_main-same s.listener s in ((same.1, same.2), (tt, tt))
Advances-IsSettled (closes_countries s) k = ((refl, refl), tt)
Advances-IsSettled (accepts conn l s o) k = ((refl, refl), (k, tt))
Advances-IsSettled (accept_fails l s) k = ((refl, refl), (k, tt))
Advances-IsSettled (returns l s c) k = ((refl, refl), tt)
Advances-IsSettled (goes_on l s o) k = ((refl, refl), (k, tt))
