-- ===== src/Tunnels/Manager/Stopping.antt =====
-- What `stopTunnel` and the methods on it leave alone (internal/tunnels/manager.go).
use wg_proxy.Common.{
  ℕ, ◌≡◌, refl, sym, ap, ◌∙◌, Option, none, some, [], ◌∷◌, arith, inl, inr, Bool-cases,
  none-ne-some, bind-inv, some-inj, ◌==◌, ==_iff,
}
use wg_proxy.Common.Bytes.{Bytes}
use wg_proxy.Common.Errors.{GoError}
use wg_proxy.Tunnels.{Tunnel}
use wg_proxy.Tunnels.Manager.{
  World, Call, interrupt, kill, remove_file, assign, call, reap, close_done, exited, mem_closed,
}
use wg_proxy.Tunnels.Manager.Actions.{
  Exit, in_time, too_late, stopping, await_exit, signal, remove_temporary, stop_tunnel,
}

-- `w'` has the manager's fields of `w`, and each tunnel its name and its port.
pub record Keeps (w w' : World) : Type 0 where
  pub tunnels : w'.tunnels ≡ w.tunnels
  pub base_port : w'.base_port ≡ w.base_port
  pub next_port : w'.next_port ≡ w.next_port
  pub fresh : w'.fresh ≡ w.fresh
  pub names : (p : ℕ) → (w'.cells p).name ≡ (w.cells p).name
  pub ports : (p : ℕ) → (w'.cells p).proxy_port ≡ (w.cells p).proxy_port

pub Keeps-refl : (w : World) → Keeps w w
Keeps-refl w = record {
  tunnels = refl;
  base_port = refl;
  next_port = refl;
  fresh = refl;
  names = λ p. refl;
  ports = λ p. refl;
}

pub Keeps-trans : {u v w : World} → Keeps u v → Keeps v w → Keeps u w
Keeps-trans a b = record {
  tunnels = b.tunnels ∙ a.tunnels;
  base_port = b.base_port ∙ a.base_port;
  next_port = b.next_port ∙ a.next_port;
  fresh = b.fresh ∙ a.fresh;
  names = λ p. b.names p ∙ a.names p;
  ports = λ p. b.ports p ∙ a.ports p;
}

-- A write that keeps the name and the port of its tunnel.
pub assign-Keeps :
    (p : ℕ) (t : Tunnel) (w : World)
    → t.name ≡ (w.cells p).name
    → t.proxy_port ≡ (w.cells p).proxy_port
    → Keeps w (assign p t w)
assign-Keeps p t w same_name same_port = record {
  tunnels = refl;
  base_port = refl;
  next_port = refl;
  fresh = refl;
  names = λ q. elim (Bool-cases (q == p)) [
    | inl e ↦ rw e (same_name ∙ ap (λ (r : ℕ). (w.cells r).name) (sym ((==_iff q p).0 e)))
    | inr e ↦ rw e
  ];
  ports = λ q. elim (Bool-cases (q == p)) [
    | inl e ↦ rw e (same_port ∙ ap (λ (r : ℕ). (w.cells r).proxy_port) (sym ((==_iff q p).0 e)))
    | inr e ↦ rw e
  ];
}

pub call-Keeps : (c : Call) (w : World) → Keeps w (call c w)
call-Keeps c w = record {
  tunnels = refl;
  base_port = refl;
  next_port = refl;
  fresh = refl;
  names = λ p. refl;
  ports = λ p. refl;
}

pub close_done-Keeps : (d : Option ℕ) (w w' : World) → close_done d w ≡ some w' → Keeps w w'
unfolding close_done
close_done-Keeps none w w' e = cc
close_done-Keeps (some c) w w' e = elim (Bool-cases (mem_closed c w.closed)) [
  | inl twice ↦ absurd (none-ne-some (rw (twice, close_done) at e))
  | inr once ↦ rw (← some-inj (rw (once, close_done) at e)) (record {
    tunnels = refl;
    base_port = refl;
    next_port = refl;
    fresh = refl;
    names = λ p. refl;
    ports = λ p. refl;
  })
]

pub exited-name :
    (quote : Bytes → Bytes) (f : Option GoError) (t : Tunnel)
    → ((exited quote f t).name ≡ t.name) × ((exited quote f t).proxy_port ≡ t.proxy_port)
exited-name quote f t = ground arith

pub reap-Keeps :
    (quote : Bytes → Bytes) (f : Option GoError) (p : ℕ) (w w' : World)
    → reap quote f p w ≡ some w'
    → Keeps w w'
unfolding reap
reap-Keeps quote f p w w' e =
    let t = exited quote f (w.cells p) in
    let (name, port) = exited-name quote f (w.cells p) in
    Keeps-trans (assign-Keeps p t w name port)
      (close_done-Keeps (w.cells p).done (assign p t w) w' e)

await_exit-Keeps :
    (quote : Bytes → Bytes) (x : Exit) (pid p : ℕ) (d : Option ℕ) (w w' : World)
    → await_exit quote x pid p d w ≡ some w'
    → Keeps w w'
await_exit-Keeps quote x pid p none w w' e = rw (← some-inj e) (Keeps-refl w)
await_exit-Keeps quote (in_time f) pid p (some c) w w' e = reap-Keeps quote f p w w' e
await_exit-Keeps quote too_late pid p (some c) w w' e = rw (← some-inj e) (call-Keeps (kill pid) w)

signal-Keeps :
    (quote : Bytes → Bytes) (x : Exit) (p : ℕ) (c d : Option ℕ) (w w' : World)
    → signal quote x p c d w ≡ some w'
    → Keeps w w'
signal-Keeps quote x p none d w w' e = rw (← some-inj e) (Keeps-refl w)
signal-Keeps quote x p (some pid) d w w' e =
    Keeps-trans (call-Keeps (interrupt pid) w)
      (await_exit-Keeps quote x pid p d (call (interrupt pid) w) w' e)

pub remove_temporary-Keeps : (path : Bytes) (w : World) → Keeps w (remove_temporary path w)
remove_temporary-Keeps [] w = Keeps-refl w
remove_temporary-Keeps (c ∷ path) w = call-Keeps (remove_file (c ∷ path)) w

pub stop_tunnel-Keeps :
    (quote : Bytes → Bytes) (x : Exit) (p : ℕ) (w w' : World)
    → stop_tunnel quote x p w ≡ some w'
    → Keeps w w'
unfolding stop_tunnel
stop_tunnel-Keeps quote x p w w' e =
    let t = w.cells p in
    let w1 = assign p (stopping t) w in
    let (v, ev, e2) = bind-inv (signal quote x p t.cmd t.done w1) _ e in
    rw (← some-inj e2) (
      Keeps-trans
        (Keeps-trans (assign-Keeps p (stopping t) w refl refl)
          (signal-Keeps quote x p t.cmd t.done w1 v ev))
        (remove_temporary-Keeps (v.cells p).tmp_conf v))
