-- ===== src/Tunnels/Manager/Validity.antt =====
-- The manager's list is well formed, and stays so (internal/tunnels/manager.go).
use wg_proxy.Common.{
  ℕ, zero, suc, ◌+◌, ◌^◌, ◌≤◌, ◌<◌, ◌≡◌, refl, Bool, false, not, ◌||◌, Option, none, some, List, [],
  ◌∷◌, ◌++◌, arith, length, inl, inr, Bool-cases, get_elem?, some-inj, ==_refl, ◌==◌,
}
use wg_proxy.Common.Bytes.{Bytes, bytes_eq, codes, has_suffix, trim_suffix}
use wg_proxy.Common.Errors.{GoError, Result, ok, err}
use wg_proxy.Tunnels.Manager.Actions.{remove_named, import_config}
use wg_proxy.Tunnels.{Tunnel, Cells, store, add64}
use wg_proxy.Tunnels.Manager.{
  Host, World, new_manager, append_tunnel, load_entry, load_entries, load_configs, new_tunnel, call,
  write_file,
}

-- The tunnels of a list were allocated one after another, below the pointer `q`, with their ports
-- given out one after another, from `base` and below `port`.
abbrev pub Ascending : Cells → ℕ → ℕ → List ℕ → ℕ → ℕ → Type 0
Ascending cells first base [] q port = (first ≤ q) × (base ≤ port)
Ascending cells first base (p ∷ ps) q port =
    (first ≤ p)
    × (base ≤ (cells p).proxy_port)
    × Ascending cells (p + 1) ((cells p).proxy_port + 1) ps q port

abbrev pub IsValid : World → Type 0
IsValid w = Ascending w.cells 0 w.base_port w.tunnels w.fresh w.next_port

pub new_manager-IsValid :
    (dir : Bytes) (port : ℕ) (cells : Cells) → IsValid (new_manager dir port cells)
unfolding new_manager
new_manager-IsValid dir port cells = (omega arith, omega arith)

Ascending-le :
    (cells : Cells) (ps : List ℕ) (first base q port : ℕ)
    → Ascending cells first base ps q port
    → (first ≤ q) × (base ≤ port)
Ascending-le cells [] first base q port h = h
Ascending-le cells (p ∷ ps) first base q port (a, b, h) =
    omega (arith, Ascending-le cells ps (p + 1) ((cells p).proxy_port + 1) q port h)

not-eq : (a b : ℕ) → a < b → (a == b) ≡ false
not-eq a b h = ground arith

-- A tunnel that is allocated behind the others, with the next port, goes to the end of the list.
Ascending-store :
    (cells : Cells) (t : Tunnel) (ps : List ℕ) (first base q port : ℕ)
    → t.proxy_port ≡ port
    → Ascending cells first base ps q port
    → Ascending (store cells q t) first base (ps ++ (q ∷ [])) (q + 1) (port + 1)
Ascending-store cells t [] first base q port e (a, b) =
    rw (==_refl q, e) (a, b, (omega arith, omega arith))
Ascending-store cells t (p ∷ ps) first base q port e (a, b, h) =
    let below = Ascending-le cells ps (p + 1) ((cells p).proxy_port + 1) q port h in
    rw (not-eq p q (omega (arith, below)))
      (a, b, Ascending-store cells t ps (p + 1) ((cells p).proxy_port + 1) q port e h)

-- Leaving tunnels out keeps the order of the others.
Ascending-weaken :
    (cells : Cells) (ps : List ℕ) {first first' base base' : ℕ} (q port : ℕ)
    → first ≤ first'
    → base ≤ base'
    → Ascending cells first' base' ps q port
    → Ascending cells first base ps q port
Ascending-weaken cells [] q port h k (a, b) = (omega arith, omega arith)
Ascending-weaken cells (p ∷ ps) q port h k (a, b, r) = (omega arith, omega arith, r)

pub Ascending-remove_named :
    (cells : Cells) (name : Bytes) (ps : List ℕ) (first base q port : ℕ)
    → Ascending cells first base ps q port
    → Ascending cells first base (remove_named cells name ps) q port
unfolding remove_named
Ascending-remove_named cells name [] first base q port h = h
Ascending-remove_named cells name (p ∷ ps) first base q port (a, b, h) =
    elim (Bool-cases (bytes_eq (cells p).name name)) [
      | inl e ↦ rw e (Ascending-weaken cells ps q port (omega arith) (omega arith) h)
      | inr e ↦
          rw e
            (a, b, Ascending-remove_named cells name ps (p + 1) ((cells p).proxy_port + 1) q port h)
    ]

-- The order is about the ports alone.
pub Ascending-same :
    (cells cells' : Cells) (ps : List ℕ) (first base q port : ℕ)
    → ((p : ℕ) → (cells' p).proxy_port ≡ (cells p).proxy_port)
    → Ascending cells first base ps q port
    → Ascending cells' first base ps q port
Ascending-same cells cells' [] first base q port same h = h
Ascending-same cells cells' (p ∷ ps) first base q port same (a, b, h) =
    rw (same p)
      (a, b, Ascending-same cells cells' ps (p + 1) ((cells p).proxy_port + 1) q port same h)

module _ (h : Host) where
  append_tunnel-IsValid :
      (name path : Bytes) (w : World)
      → w.next_port + 1 < 2 ^ 64
      → IsValid w
      → IsValid (append_tunnel h name path w)
  unfolding append_tunnel
  append_tunnel-IsValid name path w fits v =
      let e : add64 w.next_port 1 ≡ w.next_port + 1 = omega arith in
      rw e (
        Ascending-store w.cells (new_tunnel h name path w.next_port) w.tunnels 0 w.base_port w.fresh
          w.next_port refl v)

  append_tunnel-port :
      (name path : Bytes) (w : World)
      → w.next_port + 1 < 2 ^ 64
      → (append_tunnel h name path w).next_port ≡ w.next_port + 1
  unfolding append_tunnel
  append_tunnel-port name path w fits = omega arith

  -- One entry of the directory gives out at most one port.
  load_entry-IsValid :
      (w : World) (is_dir : Bool) (file : Bytes)
      → w.next_port + 1 < 2 ^ 64
      → IsValid w
      → IsValid (load_entry h w is_dir file)
        × ((load_entry h w is_dir file).next_port ≤ w.next_port + 1)
  unfolding load_entry
  load_entry-IsValid w is_dir file fits v =
      elim (Bool-cases (is_dir || not (has_suffix file (codes ".conf")))) [
        | inl skip ↦ rw skip (v, omega arith)
        | inr take ↦ rw take (
          append_tunnel-IsValid _ _ w fits v,
          omega (
            arith,
            append_tunnel-port (trim_suffix file (codes ".conf")) (h.join w.config_dir file) w fits,
          ),
        )
      ]

  load_entries-IsValid :
      (w : World) (es : List (Bytes × Bool))
      → w.next_port + length es < 2 ^ 64
      → IsValid w
      → IsValid (load_entries h w es)
  unfolding load_entries
  load_entries-IsValid w [] fits v = v
  load_entries-IsValid w ((file, is_dir) ∷ es) fits v =
      let (v', more) = load_entry-IsValid w is_dir file (omega arith) v in
      load_entries-IsValid (load_entry h w is_dir file) es (omega arith) v'

  -- Loading a directory keeps the manager well formed, if the ports for its entries fit into 64
  -- bits.
  pub load_configs-IsValid :
      (r : Result (List (Bytes × Bool))) (w : World)
      → ((es : List (Bytes × Bool)) → r ≡ ok es → w.next_port + length es < 2 ^ 64)
      → IsValid w
      → IsValid (load_configs h r w).0
  unfolding load_configs
  load_configs-IsValid (err e) w fits v = v
  load_configs-IsValid (ok es) w fits v = load_entries-IsValid w es (fits es refl) v

  -- An import keeps the manager well formed, whether its file is written or not, if the next port
  -- fits into 64 bits.
  pub import_config-IsValid :
      (fault : Option GoError) (name content : Bytes) (w : World)
      → w.next_port + 1 < 2 ^ 64
      → IsValid w
      → IsValid (import_config h fault name content w).0
  unfolding import_config
  import_config-IsValid (some e) name content w fits v = v
  import_config-IsValid none name content w fits v =
      let path = h.join w.config_dir (name ++ codes ".conf") in
      append_tunnel-IsValid name path (call (write_file path content) w) fits v

pub get-bounds :
    (cells : Cells) (ps : List ℕ) (first base q port j b : ℕ)
    → Ascending cells first base ps q port
    → get_elem? ps j ≡ some b
    → (first ≤ b) × (base ≤ (cells b).proxy_port)
get-bounds cells [] first base q port j b v e = cc
get-bounds cells (p ∷ ps) first base q port zero b (x, y, v) e = rw (← some-inj e) (x, y)
get-bounds cells (p ∷ ps) first base q port (suc j) b (x, y, v) e =
    omega (arith, get-bounds cells ps (p + 1) ((cells p).proxy_port + 1) q port j b v e)

-- Of two places in such a list the later one holds a tunnel that was allocated later, with a larger
-- port.
ports-lt :
    (cells : Cells) (ps : List ℕ) (first base q port i j a b : ℕ)
    → Ascending cells first base ps q port
    → i < j
    → get_elem? ps i ≡ some a
    → get_elem? ps j ≡ some b
    → (a < b) × ((cells a).proxy_port < (cells b).proxy_port)
ports-lt cells [] first base q port i j a b v h ei ej = cc
ports-lt cells (p ∷ ps) first base q port i zero a b v h ei ej = absurd (omega arith)
ports-lt cells (p ∷ ps) first base q port zero (suc j) a b (x, y, v) h ei ej =
    let later = get-bounds cells ps (p + 1) ((cells p).proxy_port + 1) q port j b v ej in
    rw (← some-inj ei) (omega (arith, later))
ports-lt cells (p ∷ ps) first base q port (suc i) (suc j) a b (x, y, v) h ei ej =
    ports-lt cells ps (p + 1) ((cells p).proxy_port + 1) q port i j a b v (omega arith) ei ej

-- In a well-formed manager the later of two listed tunnels is another tunnel with a larger port: no
-- two tunnels share a port, and none has one below the base port.
pub IsValid-ports :
    (w : World) (i j a b : ℕ)
    → IsValid w
    → i < j
    → get_elem? w.tunnels i ≡ some a
    → get_elem? w.tunnels j ≡ some b
    → (a < b)
      × (w.base_port ≤ (w.cells a).proxy_port)
      × ((w.cells a).proxy_port < (w.cells b).proxy_port)
IsValid-ports w i j a b v h ei ej =
    let (below, ports) =
      ports-lt w.cells w.tunnels 0 w.base_port w.fresh w.next_port i j a b v h ei ej in
    let (_, base) = get-bounds w.cells w.tunnels 0 w.base_port w.fresh w.next_port i a v ei in
    (below, base, ports)
