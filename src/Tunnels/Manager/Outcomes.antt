-- ===== src/Tunnels/Manager/Outcomes.antt =====
-- Every outcome of the manager's methods on running tunnels leaves it well formed
-- (internal/tunnels/manager.go).
use wg_proxy.Common.{ℕ, ◌≡◌, refl, ap, Option, none, some, some-inj, bind-inv}
use wg_proxy.Common.Bytes.{Bytes}
use wg_proxy.Common.Errors.{GoError}
use wg_proxy.Tunnels.{disconnected}
use wg_proxy.Tunnels.Manager.{World, get_tunnel, assign, call, remove_file}
use wg_proxy.Tunnels.Manager.Actions.{
  Exit, Removal, removed, missing, refused, stop_tunnel, restart, restart_at, disconnect,
  disconnect_at, delete, delete_at, after_removal,
}
use wg_proxy.Tunnels.Manager.Stopping.{Keeps, Keeps-trans, assign-Keeps, stop_tunnel-Keeps}
use wg_proxy.Tunnels.Manager.Validity.{IsValid, Ascending-same, Ascending-remove_named}

pub IsValid-Keeps : (w v : World) → Keeps w v → IsValid w → IsValid v
IsValid-Keeps w v keeps valid =
    rw (keeps.tunnels, keeps.base_port, keeps.fresh, keeps.next_port)
      (Ascending-same w.cells v.cells w.tunnels 0 w.base_port w.fresh w.next_port keeps.ports valid)

module _ (quote : Bytes → Bytes) (x : Exit) (name : Bytes) where
  restart_at-IsValid :
      (o : Option ℕ) (w w' : World) (e : Option GoError)
      → restart_at quote x name o w ≡ some (w', e)
      → IsValid w
      → IsValid w'
  unfolding restart_at
  restart_at-IsValid none w w' e h valid = rw (← ap (λ r. r.0) (some-inj h)) valid
  restart_at-IsValid (some p) w w' e h valid =
      let (v, ev, e2) = bind-inv (stop_tunnel quote x p w) _ h in
      rw (← ap (λ r. r.0) (some-inj e2))
        (IsValid-Keeps w v (stop_tunnel-Keeps quote x p w v ev) valid)

  -- A restart that returns keeps the manager well formed, whether the tunnel is found or not.
  pub restart-IsValid :
      (w w' : World) (e : Option GoError)
      → restart quote x name w ≡ some (w', e)
      → IsValid w
      → IsValid w'
  unfolding restart
  restart-IsValid w w' e h valid = restart_at-IsValid (get_tunnel w name) w w' e h valid

  disconnect_at-IsValid :
      (o : Option ℕ) (w w' : World) (e : Option GoError)
      → disconnect_at quote x name o w ≡ some (w', e)
      → IsValid w
      → IsValid w'
  unfolding disconnect_at
  disconnect_at-IsValid none w w' e h valid = rw (← ap (λ r. r.0) (some-inj h)) valid
  disconnect_at-IsValid (some p) w w' e h valid =
      let (v, ev, e2) = bind-inv (stop_tunnel quote x p w) _ h in
      let t = record (v.cells p) { status = disconnected } in
      rw (← ap (λ r. r.0) (some-inj e2)) (
        IsValid-Keeps w (assign p t v)
          (Keeps-trans (stop_tunnel-Keeps quote x p w v ev) (assign-Keeps p t v refl refl)) valid)

  -- A disconnection that returns keeps the manager well formed, whether the tunnel is found or not.
  pub disconnect-IsValid :
      (w w' : World) (e : Option GoError)
      → disconnect quote x name w ≡ some (w', e)
      → IsValid w
      → IsValid w'
  unfolding disconnect
  disconnect-IsValid w w' e h valid = disconnect_at-IsValid (get_tunnel w name) w w' e h valid

  after_removal-IsValid :
      (p : ℕ) (o : Removal) (v : World) → IsValid v → IsValid (after_removal quote name p o v).0
  after_removal-IsValid p removed v valid =
      Ascending-remove_named v.cells name v.tunnels 0 v.base_port v.fresh v.next_port valid
  after_removal-IsValid p missing v valid =
      Ascending-remove_named v.cells name v.tunnels 0 v.base_port v.fresh v.next_port valid
  after_removal-IsValid p (refused e) v valid = valid

  delete_at-IsValid :
      (r : Removal) (o : Option ℕ) (w w' : World) (e : Option GoError)
      → delete_at quote x r name o w ≡ some (w', e)
      → IsValid w
      → IsValid w'
  unfolding delete_at
  delete_at-IsValid r none w w' e h valid = rw (← ap (λ r. r.0) (some-inj h)) valid
  delete_at-IsValid r (some p) w w' e h valid =
      let (v, ev, e2) = bind-inv (stop_tunnel quote x p w) _ h in
      let u = call (remove_file (v.cells p).config_path) v in
      rw (← ap (λ r. r.0) (some-inj e2))
        (after_removal-IsValid p r u (IsValid-Keeps w v (stop_tunnel-Keeps quote x p w v ev) valid))

  -- A deletion that returns keeps the manager well formed, whether the tunnel is found or not and
  -- whether its file is removed or not.
  pub delete_outcome-IsValid :
      (r : Removal) (w w' : World) (e : Option GoError)
      → delete quote x r name w ≡ some (w', e)
      → IsValid w
      → IsValid w'
  unfolding delete
  delete_outcome-IsValid r w w' e h valid = delete_at-IsValid r (get_tunnel w name) w w' e h valid
