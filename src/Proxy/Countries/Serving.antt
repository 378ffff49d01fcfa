-- ===== src/Proxy/Countries/Serving.antt =====
-- What the proxies of the countries serve, and what the mapping reports (internal/proxy/server.go).
use mathlib.Core.Path.{subst}
use mathlib.Core.List.{Memᴰ, Permᴰ}
use mathlib.Core.List.Memᴰ
use wg_proxy.Common.{
  ℕ, ◌+◌, ◌^◌, ◌<◌, ◌≡◌, ◌≢◌, refl, sym, ap, ◌∙◌, Bool, true, false, none, some, List, [], ◌∷◌,
  ◌++◌, length, All, All-append, All-imp, All-mem, All-zip, if◌then◌else◌, ◌⊎◌, Bool-cases, inl,
  inr, some-inj, none-ne-some, arith,
}
use wg_proxy.Common.Bytes.{Bytes, bytes_eq, bytes_eq_iff, bytes_eq_refl, is_empty}
use wg_proxy.Tunnels.{Cells, add64}
use wg_proxy.Proxy.Countries.{
  Grouping, group, Countries, no_countries, open_country, open_countries, start_country_proxies,
  port_of_country,
}
use wg_proxy.Proxy.Countries.Groups.{
  IsOf, group-IsOf, group-Has, Differs, AreApart, group-AreApart, All-perm, AreApart-perm,
}

-- The groups that are done, newest first, when the others are done as well.
abbrev revert : Grouping → Grouping → Grouping
revert before [] = before
revert before (g ∷ after) = revert (g ∷ before) after

revert-mem :
    (before after : Grouping) (g : Bytes × List ℕ)
    → Memᴰ g before ⊎ Memᴰ g after
    → Memᴰ g (revert before after)
revert-mem before [] g (inl m) = m
revert-mem before [] g (inr m) = absurd (Memᴰ.not-nil m)
revert-mem before (h ∷ after) g (inl m) = revert-mem (h ∷ before) after g (inl (Memᴰ.tail m))
revert-mem before (h ∷ after) g (inr m) = elim (Memᴰ.cases_cons m) [
  | inl same ↦ revert-mem (h ∷ before) after g (inl (Memᴰ.head same))
  | inr later ↦ revert-mem (h ∷ before) after g (inr later)
]

abbrev Mapping : Type 0
Mapping = List (Bytes × ℕ)

lookup-here : (m : Mapping) (k : Bytes) (port : ℕ) → port_of_country ((k, port) ∷ m) k ≡ some port
unfolding port_of_country
lookup-here m k port = rw (bytes_eq_refl k) refl

lookup-later :
    (m : Mapping) (k j : Bytes) (port : ℕ)
    → k ≢ j
    → port_of_country ((k, port) ∷ m) j ≡ port_of_country m j
unfolding port_of_country
lookup-later m k j port n = ground (arith, bytes_eq_iff k j)

-- The ports of the mapping fall from `port` on.
Falls : ℕ → Mapping → Type 0
Falls port [] = Unit
Falls port ((k, q) ∷ m) = q < port × Falls q m

lookup-less :
    (m : Mapping) (k : Bytes) (port x : ℕ) → Falls port m → port_of_country m k ≡ some x → x < port
unfolding port_of_country Falls
lookup-less [] k port x f e = absurd (none-ne-some e)
lookup-less ((j, q) ∷ m) k port x (h, f) e = elim (Bool-cases (bytes_eq j k)) [
  | inl hit ↦ omega (arith, h, some-inj (rw (hit, port_of_country) at e))
  | inr miss ↦
      let less = lookup-less m k q x f (rw (miss, port_of_country) at e) in omega (arith, h, less)
]

-- No two countries have the same port.
lookup-injective :
    (m : Mapping) (k j : Bytes) (port x : ℕ)
    → Falls port m
    → port_of_country m k ≡ some x
    → port_of_country m j ≡ some x
    → k ≡ j
unfolding port_of_country Falls
lookup-injective [] k j port x f e g = absurd (none-ne-some e)
lookup-injective ((l, q) ∷ m) k j port x (h, f) e g = elim (Bool-cases (bytes_eq l k)) [
  | inl hit ↦ elim (Bool-cases (bytes_eq l j)) [
    | inl hit2 ↦ sym ((bytes_eq_iff l k).0 hit) ∙ (bytes_eq_iff l j).0 hit2
    | inr miss2 ↦
        let same : q ≡ x = some-inj (rw (hit, port_of_country) at e) in
        let less = lookup-less m j q x f (rw (miss2, port_of_country) at g) in
        absurd (omega (arith, same, less))
  ]
  | inr miss ↦ elim (Bool-cases (bytes_eq l j)) [
    | inl hit2 ↦
        let same : q ≡ x = some-inj (rw (hit2, port_of_country) at g) in
        let less = lookup-less m k q x f (rw (miss, port_of_country) at e) in
        absurd (omega (arith, same, less))
    | inr miss2 ↦
        lookup-injective m k j q x f (rw (miss, port_of_country) at e)
          (rw (miss2, port_of_country) at g)
  ]
]

module _ (listens : ℕ → Bool) (cells : Cells) where
  -- A listener, on a port that could be listened on, for the country to which the mapping gives the
  -- port; all its tunnels are of that country.
  abbrev pub IsServing : List (Bytes × ℕ) → ℕ × List ℕ → Type 0
  IsServing m (port, ps) =
      (listens port ≡ true)
      × ((country : Bytes) × (port_of_country m country ≡ some port)
          × All (λ p. (cells p).country ≡ country) ps)

  -- A country is in the mapping, and its tunnels have their listener where the port is free.
  abbrev pub IsOpen : Countries → Bytes × List ℕ → Type 0
  IsOpen s (country, ps) =
      (port : ℕ) × (port_of_country s.mapping country ≡ some port)
      × (listens port ≡ true → Memᴰ (port, ps) s.listeners)

  -- The groups that are done, and those that are not.
  record Holds (port : ℕ) (before after : Grouping) (s : Countries) : Type 0 where
    falls : Falls port s.mapping
    serving : All (IsServing s.mapping) s.listeners
    opened : All (IsOpen s) before
    fresh : All (λ (g : Bytes × List ℕ). port_of_country s.mapping g.0 ≡ none) after

  Holds-step :
      (port : ℕ) (before after : Grouping) (country : Bytes) (ps : List ℕ) (s : Countries)
      → AreApart ((country, ps) ∷ after)
      → IsOf cells (country, ps)
      → Holds port before ((country, ps) ∷ after) s
      → Holds (port + 1) ((country, ps) ∷ before) after (open_country listens country port ps s)
  unfolding Falls
  Holds-step port before after country ps s (apart, _) of h =
      let here = lookup-here s.mapping country port in
      let unused : port_of_country s.mapping country ≡ none = h.fresh.0 in
      let keeps : (k : Bytes) (x : ℕ)
          → port_of_country s.mapping k ≡ some x
          → port_of_country ((country, port) ∷ s.mapping) k ≡ some x =
        λ k x e.
          lookup-later s.mapping country k port
            (λ same. none-ne-some (sym unused ∙ (ap (port_of_country s.mapping) same ∙ e)))
          ∙ e in
      let kept =
        All-imp (IsServing s.mapping) (IsServing ((country, port) ∷ s.mapping)) s.listeners
          (λ l (a, (k, e, o)). (a, (k, keeps k l.0 e, o))) h.serving in
      record {
        falls = (omega arith, h.falls);
        serving = elim (Bool-cases (listens port)) [
          | inl e ↦
              subst
                (λ b.
                  All (IsServing ((country, port) ∷ s.mapping))
                    (if b then s.listeners ++ ((port, ps) ∷ []) else s.listeners))
                (sym e)
                (All-append (IsServing ((country, port) ∷ s.mapping)) s.listeners ((port, ps) ∷ [])
                  kept ((e, (country, here, of)), tt))
          | inr e ↦
              subst
                (λ b.
                  All (IsServing ((country, port) ∷ s.mapping))
                    (if b then s.listeners ++ ((port, ps) ∷ []) else s.listeners))
                (sym e) kept
        ];
        opened = (
          (port, here, λ e. rw e (Memᴰ.append_right s.listeners (Memᴰ.head refl))),
          All-imp (IsOpen s) (IsOpen (open_country listens country port ps s)) before
              (λ g (x, e, m). (x, keeps g.0 x e, λ l. still (x, g.1) (m l))) h.opened,
        );
        fresh =
            All-zip (λ (g : Bytes × List ℕ). port_of_country s.mapping g.0 ≡ none) (Differs country)
              (λ (g : Bytes × List ℕ). port_of_country ((country, port) ∷ s.mapping) g.0 ≡ none)
              after (λ g e n. lookup-later s.mapping country g.0 port (λ same. n (sym same)) ∙ e)
              h.fresh.1 apart;
      }
    where
      still :
          (l : ℕ × List ℕ)
          → Memᴰ l s.listeners
          → Memᴰ l (if listens port then s.listeners ++ ((port, ps) ∷ []) else s.listeners)
      still l m = elim (Bool-cases (listens port)) [
        | inl e ↦ rw e (Memᴰ.append_left ((port, ps) ∷ []) m)
        | inr e ↦ rw e m
      ]

  Holds-all :
      (port : ℕ) (before after : Grouping) (s : Countries)
      → port + length after < 2 ^ 64
      → AreApart after
      → All (IsOf cells) after
      → Holds port before after s
      → (end : ℕ) × Holds end (revert before after) [] (open_countries listens port after s)
  unfolding open_countries
  Holds-all port before [] s b a o h = (port, h)
  Holds-all port before ((country, ps) ∷ after) s b (apart, a) (of, o) h =
      let next_port : add64 port 1 ≡ port + 1 = omega arith in
      rw next_port (
        Holds-all (port + 1) ((country, ps) ∷ before) after (open_country listens country port ps s)
          (omega arith) a o (Holds-step port before after country ps s (apart, a) of h))

nothing_yet : (gs : Grouping) → All (λ (g : Bytes × List ℕ). port_of_country [] g.0 ≡ none) gs
unfolding port_of_country
nothing_yet [] = tt
nothing_yet (g ∷ gs) = (refl, nothing_yet gs)

perm-mem : {gs hs : Grouping} (g : Bytes × List ℕ) → Permᴰ gs hs → Memᴰ g gs → Memᴰ g hs
perm-mem g (Permᴰ.nil) m = m
perm-mem g (Permᴰ.cons e p) m = elim (Memᴰ.cases_cons m) [
  | inl same ↦ Memᴰ.head (same ∙ e)
  | inr later ↦ Memᴰ.tail (perm-mem g p later)
]
perm-mem g (Permᴰ.swap e f) m = elim (Memᴰ.cases_cons m) [
  | inl same ↦ Memᴰ.tail (Memᴰ.head (same ∙ e))
  | inr later ↦ elim (Memᴰ.cases_cons later) [
    | inl same ↦ Memᴰ.head (same ∙ f)
    | inr last ↦ Memᴰ.tail (Memᴰ.tail last)
  ]
]
perm-mem g (Permᴰ.trans p q) m = perm-mem g q (perm-mem g p m)

-- If the map of the countries is ranged over in some order of its entries, and the ports that
-- follow from the base port on are below 2^64, then whatever ports can be listened on: each
-- listener is on the port that the mapping gives to a country, and balances tunnels of that country
-- only; each tunnel with a country has a port in the mapping for its country and is among the
-- tunnels of that port's listener, if the port can be listened on; and no two countries have the
-- same port.
pub start_country_proxies-IsServing :
    (listens : ℕ → Bool) (order : Grouping → Grouping) (base : ℕ) (cells : Cells) (tunnels : List ℕ)
    (r : Countries)
    → ((gs : Grouping) → Permᴰ gs (order gs))
    → base + length (order (group cells [] tunnels)) < 2 ^ 64
    → start_country_proxies listens order base cells tunnels no_countries ≡ r
    → All (IsServing listens cells r.mapping) r.listeners
      × ((p : ℕ)
          → Memᴰ p tunnels
          → is_empty (cells p).country ≡ false
          → (port : ℕ) × (ps : List ℕ) × (port_of_country r.mapping (cells p).country ≡ some port)
            × Memᴰ p ps
            × (listens port ≡ true → Memᴰ (port, ps) r.listeners))
      × ((k j : Bytes) (port : ℕ)
          → port_of_country r.mapping k ≡ some port
          → port_of_country r.mapping j ≡ some port
          → k ≡ j)
unfolding start_country_proxies Falls
start_country_proxies-IsServing listens order base cells tunnels r permutes bound e =
    let gs = group cells [] tunnels in
    let apart = AreApart-perm (permutes gs) (group-AreApart cells tunnels [] tt) in
    let of = All-perm (IsOf cells) (permutes gs) (group-IsOf cells tunnels [] tt) in
    let (end, h) =
      Holds-all listens cells base [] (order gs) no_countries bound apart of
        record { falls = tt; serving = tt; opened = tt; fresh = nothing_yet (order gs) } in
    rw (← e) (
      h.serving,
      λ p m full.
          let (ps, n, i) = group-Has cells p tunnels [] m full in
          let done = revert-mem [] (order gs) _ (inr (perm-mem _ (permutes gs) n)) in
          let (port, at, l) = All-mem (IsOpen listens cells _) _ h.opened done in
          (port, ps, at, i, l),
      λ k j port a b. lookup-injective _ k j end port h.falls a b,
    )
