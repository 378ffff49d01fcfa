-- ===== src/WgServer/Routing/Modes.antt =====
-- The states that `SetMode` leaves (internal/wgserver/routing.go).
use wg_proxy.Common.{ℕ, ◌≡◌, ◌≢◌, ◌⊎◌, inl, inr, refl, none, [], Bool-cases, arith}
use wg_proxy.Common.Bytes.{Bytes, bytes_eq, bytes_eq_refl}
use wg_proxy.WgServer.Routing.{
  Controller, mode_direct, mode_proxied, new_controller, default_port, set_mode,
}

-- The traffic goes out directly, with no country, or through a proxy on a port.
abbrev pub IsConsistent : Controller → Type 0
IsConsistent c =
    ((c.mode ≡ mode_direct) × (c.exit_country ≡ []))
    ⊎ ((c.mode ≡ mode_proxied) × (c.proxy_port ≢ 0))

pub new_controller-IsConsistent : IsConsistent new_controller
unfolding new_controller
new_controller-IsConsistent = inl (refl, refl)

default_port-ne : (port : ℕ) → default_port port ≢ 0
default_port-ne port = ground arith

-- `SetMode` reports no error, whatever mode it is asked for and whatever its commands do, and
-- leaves the controller either direct without a country or proxied with a port.
pub set_mode-IsConsistent :
    (mode country : Bytes) (port : ℕ) (c : Controller)
    → ((set_mode mode country port c).1 ≡ none) × IsConsistent (set_mode mode country port c).0
unfolding set_mode
set_mode-IsConsistent mode country port c = elim (Bool-cases (bytes_eq mode mode_proxied)) [
  | inl e ↦ rw e (refl, inr (refl, default_port-ne port))
  | inr e ↦ rw e (refl, inl (refl, refl))
]

-- The port of the chosen backend has no effect on the system: whatever ports two switches to the
-- proxied mode name, they run the same commands, and only the port that is reported differs.
pub set_mode-port_unused :
    (country : Bytes) (p q : ℕ) (c : Controller)
    → (set_mode mode_proxied country p c).0.commands
      ≡ (set_mode mode_proxied country q c).0.commands
unfolding set_mode
set_mode-port_unused country p q c = rw (bytes_eq_refl mode_proxied) refl
