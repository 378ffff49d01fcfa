-- ===== src/WgServer/Gateway/Success.antt =====
-- What holds when `Start` returned no error (internal/wgserver/server.go).
use mathlib.Core.Path.{subst}
use wg_proxy.Common.{
  ℕ, ◌≡◌, refl, sym, ap, ◌∙◌, inl, inr, true, false, Option, none, some, List, ltb, length,
  Bool-cases, some-inj, none-ne-some, if_true, if_false,
}
use wg_proxy.Common.Bytes.{Bytes}
use wg_proxy.Common.Errors.{GoError}
use wg_proxy.WgServer.Keys.{KeyState}
use wg_proxy.WgServer.Server.{Server, Settings, WgCall, Rule, wg, enable_forwarding, add_rule}
use wg_proxy.WgServer.Gateway.{
  Boot, Step, Failure, and_then, labelled, report, append_rule, masquerade, accept_in, accept_out,
  enable_forward, setup_nat, set_keys, make_dir, load_peers, add_peers, or_teardown, bring_up,
  started, start, lists_nil, to_interface,
}
use wg_proxy.WgServer.Gateway.Steps.{
  is_quiet, is_setup-is_quiet, add_peers-keeps, setup_interface-keeps,
}
use wg_proxy.WgServer.Gateway.Table.{table, table-append, effect-quiet}

-- Inversions of a statement that returned no error.
pub and_then-none :
    (r : Step) (f : Server → Step) (t : Server)
    → and_then r f ≡ (t, none)
    → (u : Server) × (r ≡ (u, none)) × (f u ≡ (t, none))
unfolding and_then
and_then-none (u, none) f t h = (u, refl, h)
and_then-none (u, some e) f t h = absurd (none-ne-some (sym (ap (λ r. r.1) h)))

pub labelled-none :
    (what : Bytes) (r : Step) (t : Server) → labelled what r ≡ (t, none) → r ≡ (t, none)
unfolding labelled
labelled-none what (u, none) t h = h
labelled-none what (u, some e) t h = absurd (none-ne-some (sym (ap (λ r. r.1) h)))

pub or_teardown-none : (r : Step) (t : Server) → or_teardown r ≡ (t, none) → r ≡ (t, none)
unfolding or_teardown
or_teardown-none (u, none) t h = h
or_teardown-none (u, some e) t h = absurd (none-ne-some (sym (ap (λ r. r.1) h)))

append_rule-none :
    (what : Bytes) (rule : Rule) (x : Failure) (s t : Server)
    → append_rule what rule x s ≡ (t, none)
    → t ≡ wg (add_rule rule true) s
unfolding append_rule report
append_rule-none what rule none s t h = sym (ap (λ r. r.0) h)
append_rule-none what rule (some (out, e)) s t h = absurd (none-ne-some (sym (ap (λ r. r.1) h)))

enable_forward-none :
    (x : Option GoError) (s t : Server)
    → enable_forward x s ≡ (t, none)
    → t ≡ wg enable_forwarding s
unfolding enable_forward
enable_forward-none none s t h = sym (ap (λ r. r.0) h)
enable_forward-none (some e) s t h = absurd (none-ne-some (sym (ap (λ r. r.1) h)))

pub setup_nat-none :
    (b : Boot) (s t : Server)
    → setup_nat b s ≡ (t, none)
    → t
      ≡ wg (add_rule accept_out true) (
          wg (add_rule accept_in true) (
            wg
              (add_rule (masquerade s.settings.server_subnet b.interface) true)
              (wg enable_forwarding s)))
unfolding setup_nat
setup_nat-none b s t h =
    let (u, e1, h1) = and_then-none _ _ t h in
    let (v, e2, h2) = and_then-none _ _ t h1 in
    let (w, e3, h3) = and_then-none _ _ t h2 in
    let eu = enable_forward-none _ s u e1 in
    let ev = append_rule-none _ _ _ u v e2 in
    let ew = append_rule-none _ _ _ v w e3 in
    append_rule-none _ _ _ w t h3
    ∙ ap (wg (add_rule accept_out true)) (
        ew
        ∙ ap (wg (add_rule accept_in true)) (
            ev
            ∙ ap (λ u. wg (add_rule (masquerade u.settings.server_subnet b.interface) true) u) eu))

module _ (T X : List Rule) (c : Settings) where
  -- Calls that lead from the table `T` to `X`, and settings `c`.
  abbrev Leads : Server → Type 0
  Leads s = (table s.calls T ≡ X) × (s.settings ≡ c)

  Leads-wg : (d : WgCall) (s : Server) → is_quiet d ≡ true → Leads s → Leads (wg d s)
  Leads-wg d s q (h, k) = (table-append s.calls d T ∙ (effect-quiet d _ q ∙ h), k)

  set_keys-Leads : (s : Server) (x : KeyState × Option GoError) → Leads s → Leads (set_keys s x).0
  unfolding set_keys
  set_keys-Leads s (k, e) h = h

  make_dir-Leads : (x : Option GoError) (s : Server) → Leads s → Leads (make_dir x s).0
  unfolding make_dir
  make_dir-Leads none s h = h
  make_dir-Leads (some e) s h = h

  Leads-step : (r : Step) (u : Server) → r ≡ (u, none) → Leads r.0 → Leads u
  Leads-step r u e h = subst (λ r. Leads r.0) e h

  pub bring_up-Leads :
      (ip_text : List ℕ → Bytes) (b : Boot) (s t : Server)
      → Leads s
      → bring_up ip_text b s ≡ (t, none)
      → (v : Server) × Leads v × (setup_nat b v ≡ (t, none))
  unfolding bring_up to_interface
  bring_up-Leads ip_text b s t p h =
      let (w, reached, h3) = and_then-none _ _ t h in
      let (u, e1, h1) = and_then-none _ _ w reached in
      let pu = Leads-step _ u e1 (make_dir-Leads b.made_dir s p) in
      let (v, e2, e3) = and_then-none _ _ w h1 in
      let pv = Leads-step _ v (labelled-none _ _ v e2) (set_keys-Leads u _ pu) in
      let pw = Leads-step _ w (labelled-none _ _ w e3) (
        setup_interface-keeps Leads (λ c u q. Leads-wg c u (is_setup-is_quiet c q)) ip_text b
          (load_peers v) pv) in
      (
        add_peers b.installs w.peers.peers w,
        add_peers-keeps Leads Leads-wg b.installs w.peers.peers w pw,
        or_teardown-none _ t h3,
      )

pub started-none :
    (r : Step) (t : Server)
    → started r ≡ some (t, none)
    → (u : Server) × (r ≡ (u, none)) × (record u { running = true } ≡ t)
unfolding started
started-none (u, some e) t h = absurd (none-ne-some (sym (ap (λ r. r.1) (some-inj h))))
started-none (u, none) t h = elim (Bool-cases (ltb (length u.public_key) 8)) [
  | inl short ↦ absurd (none-ne-some (rw short at h))
  | inr long ↦ (u, refl, ap (λ r. r.0) (some-inj (rw long at h)))
]

-- A start of a stopped server that returns.
pub start-started :
    (ip_text : List ℕ → Bytes) (b : Boot) (s : Server) (r : Step)
    → s.running ≡ false
    → start ip_text b s ≡ some r
    → started (bring_up ip_text b s) ≡ some r
unfolding start
start-started ip_text b s r down h =
    let later = sym (if_false s.running _ _ down) ∙ h in
    elim (Bool-cases (lists_nil (to_interface ip_text b s))) [
      | inl panics ↦ absurd (none-ne-some (sym (if_true _ _ _ panics) ∙ later))
      | inr fine ↦ sym (if_false _ _ _ fine) ∙ later
    ]
