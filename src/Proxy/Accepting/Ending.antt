-- ===== src/Proxy/Accepting/Ending.antt =====
-- How the accept loops end (internal/proxy/server.go).
use mathlib.Core.List.{Memᴰ}
use wg_proxy.Common.{
  ℕ, ◌≡◌, ◌⊎◌, inl, inr, refl, ◌∙◌, Bool, true, false, List, [], ◌∷◌, ◌++◌, All, All-replace,
  All-at, All-mem, All-imp, All-zip, arith,
}
use wg_proxy.Proxy.Accepting.{
  Sockets, Goroutine, listen, keep_listener, accept, failed, open_countries, close, close_main,
  close_countries, Advances, accepts, accept_fails, returns, goes_on, Serving,
}
use wg_proxy.Proxy.Accepting.Closing.{
  Known, IsSettled, is_close, is_before_main, is_closing, Waits, Waits-step, Waits-new, MainShut,
  CountriesShut, Advances-closed, Advances-main, Advances-countries, Advances-IsSettled,
}

-- The goroutines that are there go on, and no method is called.
pub data Progress (x : Serving) : Serving → Type 0 where
  stays : Progress x x
  goes :
      (before after : List Goroutine) (t : Goroutine) (ts : List Goroutine) (s s' : Sockets)
      → Progress x record { sockets = s; threads = before ++ (t ∷ after) }
      → Advances s t s' ts
      → Progress x record { sockets = s'; threads = before ++ (ts ++ after) }

IsSettled-same :
    (s s' : Sockets) (t : Goroutine)
    → s'.listener ≡ s.listener
    → s'.country_listeners ≡ s.country_listeners
    → IsSettled s t
    → IsSettled s' t
IsSettled-same s s' listen e k h = h
IsSettled-same s s' (keep_listener l) e k h = h
IsSettled-same s s' (accept l) e k (inl h) = inl (e ∙ h)
IsSettled-same s s' (accept l) e k (inr m) = inr (rw k m)
IsSettled-same s s' (failed l) e k (inl h) = inl (e ∙ h)
IsSettled-same s s' (failed l) e k (inr m) = inr (rw k m)
IsSettled-same s s' open_countries e k h = h
IsSettled-same s s' close e k h = h
IsSettled-same s s' close_main e k h = h
IsSettled-same s s' close_countries e k h = h

-- A `Close` is at work, or is done with the flag and the listeners.
record IsClosed (x : Serving) : Type 0 where
  settled : All (IsSettled x.sockets) x.threads
  flag : (x.sockets.closed ≡ true) ⊎ Waits is_close x.threads
  main : MainShut x.sockets ⊎ Waits is_before_main x.threads
  countries : CountriesShut x.sockets ⊎ Waits is_closing x.threads

-- What a step does to one of these.
phase :
    {P Q : Type 0} (f : Goroutine → Bool) (before after ts : List Goroutine) (t : Goroutine)
    → (P ⊎ (f t ≡ true) → Q ⊎ Waits f ts)
    → P ⊎ Waits f (before ++ (t ∷ after))
    → Q ⊎ Waits f (before ++ (ts ++ after))
phase {P = P} {Q = Q} f before after ts t step h = elim at_step [
  | inr still ↦ inr still
  | inl due ↦ elim (step due) [
    | inl done ↦ inl done
    | inr new ↦ inr (Waits-new f before after ts new)
  ]
]
  where
    at_step : (P ⊎ (f t ≡ true)) ⊎ Waits f (before ++ (ts ++ after))
    at_step = elim h [
      | inl p ↦ inl (inl p)
      | inr w ↦ elim (Waits-step f before after ts t w) [
        | inl mine ↦ inl (inr mine)
        | inr other ↦ inr other
      ]
    ]

IsClosed-step :
    (before after : List Goroutine) (t : Goroutine) (ts : List Goroutine) (s s' : Sockets)
    → Advances s t s' ts
    → IsClosed record { sockets = s; threads = before ++ (t ∷ after) }
    → IsClosed record { sockets = s'; threads = before ++ (ts ++ after) }
IsClosed-step before after t ts s s' r c =
    let mine : IsSettled s t = All-at (IsSettled s) before after t c.settled in
    let (same, new) = Advances-IsSettled r mine in
    record {
      settled =
          All-replace (IsSettled s') before after t ts
            (All-imp (IsSettled s) (IsSettled s') (before ++ (t ∷ after))
              (λ u h. IsSettled-same s s' u same.0 same.1 h) c.settled)
            new;
      flag = phase is_close before after ts t (λ h. inl (Advances-closed r h)) c.flag;
      main = phase is_before_main before after ts t (Advances-main r mine) c.main;
      countries = phase is_closing before after ts t (Advances-countries r mine) c.countries;
    }

Progress-IsClosed : {x y : Serving} → Progress x y → IsClosed x → IsClosed y
Progress-IsClosed stays c = c
Progress-IsClosed (goes before after t ts s s' p r) c =
    IsClosed-step before after t ts s s' r (Progress-IsClosed p c)

-- The next steps of an accept loop end it, and accept nothing.
abbrev pub IsEnding : Sockets → Goroutine → Type 0
IsEnding s t =
    (s' : Sockets) (ts : List Goroutine)
    → Advances s t s' ts
    → (s' ≡ s) × ((ts ≡ []) ⊎ ((l : ℕ) × (t ≡ accept l) × (ts ≡ failed l ∷ [])))

ends_accept :
    {s s' : Sockets} {ts : List Goroutine} {l : ℕ}
    → Advances s (accept l) s' ts
    → Memᴰ l s.shut
    → (s' ≡ s) × (ts ≡ failed l ∷ [])
ends_accept (accepts conn l s o) m = absurd (o m)
ends_accept (accept_fails l s) m = (refl, refl)

ends_failed :
    {s s' : Sockets} {ts : List Goroutine} {l : ℕ}
    → Advances s (failed l) s' ts
    → s.closed ≡ true
    → (s' ≡ s) × (ts ≡ [])
ends_failed (returns l s c) e = (refl, refl)
ends_failed (goes_on l s o) e = cc

Known-shut : (s : Sockets) (l : ℕ) → MainShut s → CountriesShut s → Known s l → Memᴰ l s.shut
Known-shut s l main countries (inl e) = main l e
Known-shut s l main countries (inr m) = countries l m

IsSettled-IsEnding :
    (s : Sockets) (t : Goroutine)
    → s.closed ≡ true
    → MainShut s
    → CountriesShut s
    → is_closing t ≡ false
    → IsSettled s t
    → IsEnding s t
IsSettled-IsEnding s listen c m n e k = absurd k
IsSettled-IsEnding s (keep_listener l) c m n e k = absurd k
IsSettled-IsEnding s open_countries c m n e k = absurd k
IsSettled-IsEnding s close c m n e k = cc
IsSettled-IsEnding s close_main c m n e k = cc
IsSettled-IsEnding s close_countries c m n e k = cc
IsSettled-IsEnding s (accept l) c m n e k = λ s' ts r.
    let (same, next_one) = ends_accept r (Known-shut s l m n k) in (same, inr (l, refl, next_one))
IsSettled-IsEnding s (failed l) c m n e k =
    λ s' ts r. let (same, gone) = ends_failed r c in (same, inl gone)

-- A goroutine that waits for its turn in `Close`, where there is none.
Waits-none :
    (f : Goroutine → Bool) (ts : List Goroutine)
    → ((t : Goroutine) → f t ≡ true → is_closing t ≡ true)
    → All (λ t. is_closing t ≡ false) ts
    → ¬ Waits f ts
Waits-none f ts closing none_left (t, m, e) =
    let not_closing = All-mem (λ t. is_closing t ≡ false) ts none_left m in
    let is_one = closing t e in cc

close_is_closing : (t : Goroutine) → is_close t ≡ true → is_closing t ≡ true
close_is_closing close e = refl
close_is_closing t e = ground arith

before_main_is_closing : (t : Goroutine) → is_before_main t ≡ true → is_closing t ≡ true
before_main_is_closing t e = ground arith

-- Let `Close` be called on a server that serves: its goroutines are accept loops on listeners that
-- it has kept. However these go on, once `Close` has returned, each loop that is left is at its
-- end: its next step changes nothing, so that it accepts no connection, and either ends it or
-- brings it to the test of the error, which ends it.
pub Progress-IsEnding :
    (ts : List Goroutine) (s : Sockets) (y : Serving)
    → All (IsSettled s) ts
    → Progress record { sockets = s; threads = close ∷ ts } y
    → All (λ t. is_closing t ≡ false) y.threads
    → All (IsEnding y.sockets) y.threads
Progress-IsEnding ts s y settled p none_left =
    let c = Progress-IsClosed p record {
      settled = (tt, settled);
      flag = inr (close, Memᴰ.head refl, refl);
      main = inr (close, Memᴰ.head refl, refl);
      countries = inr (close, Memᴰ.head refl, refl);
    } in
    let flag : y.sockets.closed ≡ true = elim c.flag [
      | inl e ↦ e
      | inr w ↦ absurd (Waits-none is_close y.threads close_is_closing none_left w)
    ] in
    let main : MainShut y.sockets = elim c.main [
      | inl h ↦ h
      | inr w ↦ absurd (Waits-none is_before_main y.threads before_main_is_closing none_left w)
    ] in
    let countries : CountriesShut y.sockets = elim c.countries [
      | inl h ↦ h
      | inr w ↦ absurd (Waits-none is_closing y.threads (λ t e. e) none_left w)
    ] in
    All-zip (IsSettled y.sockets) (λ t. is_closing t ≡ false) (IsEnding y.sockets) y.threads
      (λ t k e. IsSettled-IsEnding y.sockets t flag main countries e k) c.settled none_left
