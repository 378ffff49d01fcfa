-- ===== src/Tunnels/Manager/Lookup.antt =====
-- Finding and deleting tunnels by name (internal/tunnels/manager.go): `GetTunnel`, `Delete`.
use wg_proxy.Common.{
  ℕ, ◌+◌, ◌≡◌, ◌≢◌, refl, ap, ◌∙◌, Option, none, some, List, [], ◌∷◌, arith, inl, inr, Bool-cases,
  bind-inv, some-inj, length,
}
use wg_proxy.Common.Bytes.{Bytes, bytes_eq, bytes_eq_iff}
use wg_proxy.Common.Errors.{GoError}
use wg_proxy.Tunnels.{Cells}
use wg_proxy.Tunnels.Manager.{World, get_tunnel, find_named, call, remove_file}
use wg_proxy.Tunnels.Manager.Actions.{
  Exit, Removal, removed, missing, refused, remove_named, stop_tunnel, delete, delete_at, forget,
  after_removal,
}
use wg_proxy.Tunnels.Manager.Stopping.{Keeps, stop_tunnel-Keeps}
use wg_proxy.Tunnels.Manager.Validity.{IsValid, Ascending-same, Ascending-remove_named}

-- The lookup reads the names alone.
find_named-same :
    (c c' : Cells) (name : Bytes) (ps : List ℕ)
    → ((p : ℕ) → (c' p).name ≡ (c p).name)
    → find_named c' name ps ≡ find_named c name ps
unfolding find_named
find_named-same c c' name [] same = refl
find_named-same c c' name (p ∷ ps) same = rw (same p, find_named-same c c' name ps same)

remove_named-same :
    (c c' : Cells) (name : Bytes) (ps : List ℕ)
    → ((p : ℕ) → (c' p).name ≡ (c p).name)
    → remove_named c' name ps ≡ remove_named c name ps
unfolding remove_named
remove_named-same c c' name [] same = refl
remove_named-same c c' name (p ∷ ps) same = rw (same p, remove_named-same c c' name ps same)

-- Removing the first tunnel of a name does not hide a tunnel of another name.
find_named-remove_ne :
    (c : Cells) (name other : Bytes) (ps : List ℕ)
    → other ≢ name
    → find_named c other (remove_named c name ps) ≡ find_named c other ps
unfolding find_named remove_named
find_named-remove_ne c name other [] ne = refl
find_named-remove_ne c name other (p ∷ ps) ne = ground (
  arith,
  bytes_eq_iff (c p).name name,
  bytes_eq_iff (c p).name other,
  find_named-remove_ne c name other ps ne,
)

length-remove_named :
    (c : Cells) (name : Bytes) (ps : List ℕ) (p : ℕ)
    → find_named c name ps ≡ some p
    → length (remove_named c name ps) + 1 ≡ length ps
unfolding find_named remove_named
length-remove_named c name [] p e = cc
length-remove_named c name (q ∷ ps) p e = ground (arith, length-remove_named c name ps p)

-- A name that one tunnel at most bears.
abbrev pub IsUnique : Cells → Bytes → List ℕ → Type 0
IsUnique c name [] = Unit {0}
IsUnique c name (p ∷ ps) = ((c p).name ≡ name → find_named c name ps ≡ none) × IsUnique c name ps

find_named-remove_self :
    (c : Cells) (name : Bytes) (ps : List ℕ)
    → IsUnique c name ps
    → find_named c name (remove_named c name ps) ≡ none
unfolding find_named remove_named
find_named-remove_self c name [] u = refl
find_named-remove_self c name (p ∷ ps) (once, u) = elim (Bool-cases (bytes_eq (c p).name name)) [
  | inl hit ↦ rw hit (once ((bytes_eq_iff (c p).name name).0 hit))
  | inr miss ↦ rw (miss, find_named, miss) (find_named-remove_self c name ps u)
]

after_removal-inv :
    (quote : Bytes → Bytes) (name : Bytes) (p : ℕ) (o : Removal) (w w' : World)
    → after_removal quote name p o w ≡ (w', none)
    → forget quote name w ≡ w'
after_removal-inv quote name p removed w w' e = ap (λ (r : World × Option GoError). r.0) e
after_removal-inv quote name p missing w w' e = ap (λ (r : World × Option GoError). r.0) e
after_removal-inv quote name p (refused f) w w' e = cc

-- A deletion that reports no error: the tunnel was stopped, which leaves a world `v`, and the list
-- is that of `v` without the first tunnel of the name.
delete-inv :
    (quote : Bytes → Bytes) (x : Exit) (o : Removal) (name : Bytes) (w w' : World) (p : ℕ)
    → get_tunnel w name ≡ some p
    → delete quote x o name w ≡ some (w', none)
    → (v : World) × Keeps w v
      × (forget quote name (call (remove_file (v.cells p).config_path) v) ≡ w')
unfolding delete delete_at
delete-inv quote x o name w w' p found e =
    let (v, ev, e2) = bind-inv (stop_tunnel quote x p w) _ (rw found at e) in
    (
      v,
      stop_tunnel-Keeps quote x p w v ev,
      after_removal-inv quote name p o (call (remove_file (v.cells p).config_path) v) w'
          (some-inj e2),
    )

module _ (quote : Bytes → Bytes) (x : Exit) (o : Removal) (name : Bytes) (w w' : World) (p : ℕ)
    (found : get_tunnel w name ≡ some p) (deleted : delete quote x o name w ≡ some (w', none)) where
  -- The lookups behind the deletion are those in the list before, without its first such tunnel.
  deleted-look :
      (other : Bytes)
      → get_tunnel w' other ≡ find_named w.cells other (remove_named w.cells name w.tunnels)
  deleted-look other =
      let (v, keeps, e) = delete-inv quote x o name w w' p found deleted in
      let same : remove_named v.cells name v.tunnels ≡ remove_named w.cells name w.tunnels =
        rw keeps.tunnels (remove_named-same w.cells v.cells name w.tunnels keeps.names) in
      rw (← e, same)
        (find_named-same w.cells v.cells other (remove_named w.cells name w.tunnels) keeps.names)

  deleted-length : length w'.tunnels + 1 ≡ length w.tunnels
  deleted-length =
      let (v, keeps, e) = delete-inv quote x o name w w' p found deleted in
      let same : remove_named v.cells name v.tunnels ≡ remove_named w.cells name w.tunnels =
        rw keeps.tunnels (remove_named-same w.cells v.cells name w.tunnels keeps.names) in
      rw (← e, same) (length-remove_named w.cells name w.tunnels p found)

  -- After a deletion that finds its tunnel and reports no error, the manager lists one tunnel less.
  -- If only one tunnel bore the name, no lookup finds it any more.
  pub delete-get_tunnel :
      IsUnique w.cells name w.tunnels
      → (get_tunnel w' name ≡ none) × (length w'.tunnels + 1 ≡ length w.tunnels)
  delete-get_tunnel unique =
      (deleted-look name ∙ find_named-remove_self w.cells name w.tunnels unique, deleted-length)

  -- A deletion that finds its tunnel and reports no error leaves every lookup of another name as it
  -- was.
  pub delete-get_tunnel_ne :
      (other : Bytes) → other ≢ name → get_tunnel w' other ≡ get_tunnel w other
  delete-get_tunnel_ne other ne =
      deleted-look other ∙ find_named-remove_ne w.cells name other w.tunnels ne

  -- A deletion that finds its tunnel and reports no error keeps the manager well formed.
  pub delete-IsValid : IsValid w → IsValid w'
  delete-IsValid valid =
      let (v, keeps, e) = delete-inv quote x o name w w' p found deleted in
      rw (← e) (
        Ascending-remove_named v.cells name v.tunnels 0 v.base_port v.fresh v.next_port (
          rw (keeps.tunnels, keeps.base_port, keeps.fresh, keeps.next_port)
            (Ascending-same w.cells v.cells w.tunnels 0 w.base_port w.fresh w.next_port keeps.ports
              valid)))
