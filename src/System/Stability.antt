-- ===== src/System/Stability.antt =====
-- What stays as it is once a tunnel is allocated (internal/tunnels/manager.go).
use mathlib.Core.Path.{subst}
use wg_proxy.Common.{
  ℕ, ◌<◌, ◌≤◌, ◌≡◌, refl, sym, ap, ◌∙◌, inl, inr, Bool, false, not, ◌||◌, none, List, [], ◌∷◌, ◌++◌,
  ◌==◌, Bool-cases, arith,
}
use wg_proxy.Common.Bytes.{Bytes, codes, has_suffix}
use wg_proxy.Common.Errors.{Result, ok, err}
use wg_proxy.Tunnels.{Tunnel, Cells, store}
use wg_proxy.Tunnels.Manager.{Host, World, append_tunnel, load_entry, load_entries, load_configs}
use wg_proxy.Tunnels.Manager.Actions.{import_config}
use wg_proxy.Tunnels.Manager.Stopping.{Keeps}
use wg_proxy.System.{
  Thread, Runs, Arrives, loads, starts_all, stops_one, restarts, is_disconnected, is_deleted,
  imports, checks, is_picked, System, Step, runs, arrives, Steps, here, next,
}
use wg_proxy.System.Validity.{Runs-cases}

-- The pointers that are allocated stay so, with the same names and ports behind them.
pub record IsStable (w v : World) : Type 0 where
  pub fresh : w.fresh ≤ v.fresh
  pub names : (p : ℕ) → p < w.fresh → (v.cells p).name ≡ (w.cells p).name
  pub ports : (p : ℕ) → p < w.fresh → (v.cells p).proxy_port ≡ (w.cells p).proxy_port

IsStable-refl : (w : World) → IsStable w w
IsStable-refl w = record { fresh = omega arith; names = λ p h. refl; ports = λ p h. refl }

IsStable-trans : (u v w : World) → IsStable u v → IsStable v w → IsStable u w
IsStable-trans u v w a b = record {
  fresh = omega (arith, a.fresh, b.fresh);
  names = λ p h. b.names p (omega (arith, a.fresh)) ∙ a.names p h;
  ports = λ p h. b.ports p (omega (arith, a.fresh)) ∙ a.ports p h;
}

IsStable-Keeps : (w v : World) → Keeps w v → IsStable w v
IsStable-Keeps w v k = record {
  fresh = rw k.fresh (omega arith);
  names = λ p h. k.names p;
  ports = λ p h. k.ports p;
}

-- `v` has the tunnels of `w`, and may have new ones.
pub record Extends (w v : World) : Type 0 where
  pub fresh : w.fresh ≤ v.fresh
  pub cells : (p : ℕ) → p < w.fresh → v.cells p ≡ w.cells p

Extends-refl : (w : World) → Extends w w
Extends-refl w = record { fresh = omega arith; cells = λ p h. refl }

Extends-trans : (u v w : World) → Extends u v → Extends v w → Extends u w
Extends-trans u v w a b = record {
  fresh = omega (arith, a.fresh, b.fresh);
  cells = λ p h. b.cells p (omega (arith, a.fresh)) ∙ a.cells p h;
}

IsStable-Extends : (w v : World) → Extends w v → IsStable w v
IsStable-Extends w v x = record {
  fresh = x.fresh;
  names = λ p h. ap (λ (t : Tunnel). t.name) (x.cells p h);
  ports = λ p h. ap (λ (t : Tunnel). t.proxy_port) (x.cells p h);
}

store_other : (c : Cells) (q p : ℕ) (t : Tunnel) → p < q → store c q t p ≡ c p
store_other c q p t h = let other : (p == q) ≡ false = ground arith in rw other refl

module _ (h : Host) where
  append_tunnel-Extends : (name path : Bytes) (w : World) → Extends w (append_tunnel h name path w)
  unfolding append_tunnel
  append_tunnel-Extends name path w = record {
    fresh = omega arith;
    cells = λ p l. store_other w.cells w.fresh p _ l;
  }

  load_entry-Extends :
      (w : World) (is_dir : Bool) (file : Bytes) → Extends w (load_entry h w is_dir file)
  unfolding load_entry
  load_entry-Extends w is_dir file =
      elim (Bool-cases (is_dir || not (has_suffix file (codes ".conf")))) [
        | inl e ↦ rw e (Extends-refl w)
        | inr e ↦ rw e (append_tunnel-Extends _ _ w)
      ]

  load_entries-Extends : (w : World) (es : List (Bytes × Bool)) → Extends w (load_entries h w es)
  unfolding load_entries
  load_entries-Extends w [] = Extends-refl w
  load_entries-Extends w ((file, is_dir) ∷ es) =
      Extends-trans w (load_entry h w is_dir file) _ (load_entry-Extends w is_dir file)
        (load_entries-Extends (load_entry h w is_dir file) es)

  load_configs-Extends :
      (r : Result (List (Bytes × Bool))) (w : World) → Extends w (load_configs h r w).0
  unfolding load_configs
  load_configs-Extends (err e) w = Extends-refl w
  load_configs-Extends (ok es) w = load_entries-Extends w es

  import_config-Extends :
      (name content : Bytes) (w : World) → Extends w (import_config h none name content w).0
  unfolding import_config append_tunnel
  import_config-Extends name content w =
      let path = h.join w.config_dir (name ++ codes ".conf") in
      record {
        fresh = (append_tunnel-Extends name path w).fresh;
        cells = λ p l. store_other w.cells w.fresh p _ l;
      }

module _ (quote : Bytes → Bytes) where
  Runs-IsStable : {w v : World} {t : Thread} {ts : List Thread} → Runs quote w t v ts → IsStable w v
  Runs-IsStable {w = w} {v = v} r = elim (Runs-cases quote r) [
    | inl keeps ↦ IsStable-Keeps w v keeps
    | inr (name, e) ↦
        subst (IsStable w) (sym e)
          record { fresh = omega arith; names = λ p h. refl; ports = λ p h. refl }
  ]

  -- A call that begins leaves the tunnels alone, and may add some.
  pub Arrives-Extends :
      {h : Host} {w v : World} {ts : List Thread} → Arrives quote h w v ts → Extends w v
  Arrives-Extends {h = h} (loads r w fits) = load_configs-Extends h r w
  Arrives-Extends {h = h} (imports name content w fits) = import_config-Extends h name content w
  Arrives-Extends (starts_all w) = Extends-refl w
  Arrives-Extends (stops_one p w m) = Extends-refl w
  Arrives-Extends (restarts name p w e) = Extends-refl w
  Arrives-Extends (is_disconnected name p w e) = Extends-refl w
  Arrives-Extends (is_deleted name p w e) = Extends-refl w
  Arrives-Extends (checks p w m e) = Extends-refl w
  Arrives-Extends (is_picked p w l e) = Extends-refl w

  Step-IsStable : {h : Host} {s t : System quote} → Step quote h s t → IsStable s.world t.world
  Step-IsStable (runs before after t ts w v r) = Runs-IsStable r
  Step-IsStable (arrives us ts w v a) = IsStable-Extends w v (Arrives-Extends a)

  -- Whatever the goroutines do in between, a pointer to a tunnel stays allocated, and the tunnel
  -- behind it keeps its name and its port.
  pub Steps-IsStable :
      {h : Host} {s t : System quote} → Steps quote h s t → IsStable s.world t.world
  Steps-IsStable {s = s} here = IsStable-refl s.world
  Steps-IsStable {s = s} (next {t = t} {u = u} r e) =
      IsStable-trans s.world t.world u.world (Steps-IsStable r) (Step-IsStable e)
