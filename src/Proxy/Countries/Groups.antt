-- ===== src/Proxy/Countries/Groups.antt =====
-- How the tunnels are grouped by their countries (internal/proxy/server.go).
use mathlib.Core.Path.{subst}
use mathlib.Core.List.{Memᴰ, Permᴰ}
use mathlib.Core.List.Memᴰ
use wg_proxy.Common.{
  ℕ, ◌≡◌, ◌≢◌, refl, sym, ap, ◌∙◌, false, List, ◌++◌, arith, [], ◌∷◌, All, All-append, Bool-cases,
  inl, inr,
}
use wg_proxy.Common.Bytes.{Bytes, bytes_eq, bytes_eq_iff, is_empty}
use wg_proxy.Tunnels.{Cells}
use wg_proxy.Proxy.Countries.{Grouping, add_to, group}

-- All tunnels of the group have its country.
abbrev pub IsOf : Cells → Bytes × List ℕ → Type 0
IsOf cells (country, ps) = All (λ p. (cells p).country ≡ country) ps

add_to-IsOf :
    (cells : Cells) (p : ℕ) (gs : Grouping)
    → All (IsOf cells) gs
    → All (IsOf cells) (add_to (cells p).country p gs)
unfolding add_to
add_to-IsOf cells p [] h = ((refl, tt), tt)
add_to-IsOf cells p ((k, ps) ∷ gs) (h, hs) = elim (Bool-cases (bytes_eq k (cells p).country)) [
  | inl e ↦
      let same : k ≡ (cells p).country = (bytes_eq_iff k (cells p).country).0 e in
      rw e (All-append (λ q. (cells q).country ≡ k) ps (p ∷ []) h (sym same, tt), hs)
  | inr e ↦ rw e (h, add_to-IsOf cells p gs hs)
]

pub group-IsOf :
    (cells : Cells) (ps : List ℕ) (gs : Grouping)
    → All (IsOf cells) gs
    → All (IsOf cells) (group cells gs ps)
unfolding group
group-IsOf cells [] gs h = h
group-IsOf cells (p ∷ ps) gs h = elim (Bool-cases (is_empty (cells p).country)) [
  | inl e ↦ rw e (group-IsOf cells ps gs h)
  | inr e ↦ rw e (group-IsOf cells ps (add_to (cells p).country p gs) (add_to-IsOf cells p gs h))
]

-- A group of the tunnel's country that has the tunnel.
abbrev pub Has : Cells → ℕ → Grouping → Type 0
Has cells p gs = (ps : List ℕ) × Memᴰ ((cells p).country, ps) gs × Memᴰ p ps

add_to-Has : (cells : Cells) (p : ℕ) (gs : Grouping) → Has cells p (add_to (cells p).country p gs)
unfolding add_to
add_to-Has cells p [] = (p ∷ [], Memᴰ.head refl, Memᴰ.head refl)
add_to-Has cells p ((k, ps) ∷ gs) = elim (Bool-cases (bytes_eq k (cells p).country)) [
  | inl e ↦
      let same : k ≡ (cells p).country = (bytes_eq_iff k (cells p).country).0 e in
      rw e (
        ps ++ (p ∷ []),
        Memᴰ.head (ap (λ (k : Bytes). (k, ps ++ (p ∷ []))) (sym same)),
        Memᴰ.append_right ps (Memᴰ.head refl),
      )
  | inr e ↦ let (qs, m, i) = add_to-Has cells p gs in rw e (qs, Memᴰ.tail m, i)
]

add_to-keeps :
    (cells : Cells) (q p : ℕ) (country : Bytes) (gs : Grouping)
    → Has cells q gs
    → Has cells q (add_to country p gs)
unfolding add_to
add_to-keeps cells q p country [] h = absurd (Memᴰ.not-nil h.1)
add_to-keeps cells q p country ((k, ps) ∷ gs) (qs, m, i) = elim (Bool-cases (bytes_eq k country)) [
  | inl e ↦ elim (Memᴰ.cases_cons m) [
    | inl same ↦ rw e (
      ps ++ (p ∷ []),
      Memᴰ.head (ap (λ (g : Bytes × List ℕ). (g.0, ps ++ (p ∷ []))) same),
      Memᴰ.append_left (p ∷ []) (subst (Memᴰ q) (ap (λ (g : Bytes × List ℕ). g.1) same) i),
    )
    | inr later ↦ rw e (qs, Memᴰ.tail later, i)
  ]
  | inr e ↦ elim (Memᴰ.cases_cons m) [
    | inl same ↦ rw e (qs, Memᴰ.head same, i)
    | inr later ↦
        let (rs, n, j) = add_to-keeps cells q p country gs (qs, later, i) in
        rw e (rs, Memᴰ.tail n, j)
  ]
]

group-keeps :
    (cells : Cells) (q : ℕ) (ps : List ℕ) (gs : Grouping)
    → Has cells q gs
    → Has cells q (group cells gs ps)
unfolding group
group-keeps cells q [] gs h = h
group-keeps cells q (p ∷ ps) gs h = elim (Bool-cases (is_empty (cells p).country)) [
  | inl e ↦ rw e (group-keeps cells q ps gs h)
  | inr e ↦ rw e (
      group-keeps cells q ps (add_to (cells p).country p gs)
        (add_to-keeps cells q p (cells p).country gs h))
]

pub group-Has :
    (cells : Cells) (q : ℕ) (ps : List ℕ) (gs : Grouping)
    → Memᴰ q ps
    → is_empty (cells q).country ≡ false
    → Has cells q (group cells gs ps)
unfolding group
group-Has cells q [] gs m h = absurd (Memᴰ.not-nil m)
group-Has cells q (p ∷ ps) gs m h = elim (Memᴰ.cases_cons m) [
  | inl same ↦
      rw (← same, h)
        (group-keeps cells q ps (add_to (cells q).country q gs) (add_to-Has cells q gs))
  | inr later ↦ group-Has cells q ps _ later h
]

-- Each country has one group.
abbrev pub Differs : Bytes → Bytes × List ℕ → Type 0
Differs k g = g.0 ≢ k

abbrev pub AreApart : Grouping → Type 0
AreApart [] = Unit
AreApart (g ∷ gs) = All (Differs g.0) gs × AreApart gs

add_to-Differs :
    (j country : Bytes) (p : ℕ) (gs : Grouping)
    → country ≢ j
    → All (Differs j) gs
    → All (Differs j) (add_to country p gs)
unfolding add_to
add_to-Differs j country p [] n h = (n, tt)
add_to-Differs j country p ((k, ps) ∷ gs) n (h, hs) = elim (Bool-cases (bytes_eq k country)) [
  | inl e ↦ rw e (h, hs)
  | inr e ↦ rw e (h, add_to-Differs j country p gs n hs)
]

add_to-AreApart :
    (country : Bytes) (p : ℕ) (gs : Grouping) → AreApart gs → AreApart (add_to country p gs)
unfolding add_to
add_to-AreApart country p [] h = (tt, tt)
add_to-AreApart country p ((k, ps) ∷ gs) (h, hs) = elim (Bool-cases (bytes_eq k country)) [
  | inl e ↦ rw e (h, hs)
  | inr e ↦
      let other : country ≢ k = λ same. ground (arith, bytes_eq_iff k country) in
      rw e (add_to-Differs k country p gs other h, add_to-AreApart country p gs hs)
]

pub group-AreApart :
    (cells : Cells) (ps : List ℕ) (gs : Grouping) → AreApart gs → AreApart (group cells gs ps)
unfolding group
group-AreApart cells [] gs h = h
group-AreApart cells (p ∷ ps) gs h = elim (Bool-cases (is_empty (cells p).country)) [
  | inl e ↦ rw e (group-AreApart cells ps gs h)
  | inr e ↦ rw e (group-AreApart cells ps _ (add_to-AreApart (cells p).country p gs h))
]

pub All-perm : (P : Bytes × List ℕ → Type 0) {gs hs : Grouping} → Permᴰ gs hs → All P gs → All P hs
All-perm P (Permᴰ.nil) h = tt
All-perm P (Permᴰ.cons e p) (h, hs) = (subst P e h, All-perm P p hs)
All-perm P (Permᴰ.swap e f) (h, (k, hs)) = (subst P f k, (subst P e h, hs))
All-perm P (Permᴰ.trans p q) h = All-perm P q (All-perm P p h)

pub AreApart-perm : {gs hs : Grouping} → Permᴰ gs hs → AreApart gs → AreApart hs
AreApart-perm (Permᴰ.nil) h = tt
AreApart-perm (Permᴰ.cons e p) (h, hs) = (rw (← e) (All-perm (Differs _) p h), AreApart-perm p hs)
AreApart-perm (Permᴰ.swap {l = l} e f) ((n, h), (k, hs)) = (
  (
    λ q.
        n (ap (λ (g : Bytes × List ℕ). g.0) f ∙ (sym q ∙ sym (ap (λ (g : Bytes × List ℕ). g.0) e))),
    subst (λ (g : Bytes × List ℕ). All (Differs g.0) l) f k,
  ),
  (subst (λ (g : Bytes × List ℕ). All (Differs g.0) l) e h, hs),
)
AreApart-perm (Permᴰ.trans p q) h = AreApart-perm q (AreApart-perm p h)
