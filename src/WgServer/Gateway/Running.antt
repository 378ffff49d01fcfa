-- ===== src/WgServer/Gateway/Running.antt =====
-- Whether the server runs, and with which key (internal/wgserver/server.go).
use wg_proxy.Common.{
  ℕ, ◌≤◌, ◌≡◌, ◌⊎◌, inl, inr, refl, sym, ap, ◌∙◌, Bool, true, false, Option, none, some, List, ltb,
  not_ltb→le, if_true, length, Bool-cases, Defined, Defined-some, some-inj, none-ne-some,
}
use wg_proxy.Common.Bytes.{Bytes}
use wg_proxy.Common.Errors.{GoError}
use wg_proxy.WgServer.Keys.{KeyState}
use wg_proxy.WgServer.Server.{Server, Rule, wg, add_rule}
use wg_proxy.WgServer.Gateway.{
  Boot, Step, Failure, succeeds, append_rule, setup_nat, setup_interface, make_dir, load_peers,
  add_peers, or_teardown, bring_up, started, start, to_interface, set_keys, enable_forward,
}
use wg_proxy.WgServer.Gateway.Steps.{
  and_then-keeps, report-keeps, labelled-keeps, add_peers-keeps, setup_interface-keeps,
}
use wg_proxy.WgServer.Gateway.Success.{start-started}

set_keys-running :
    (s : Server) (x : KeyState × Option GoError) → (set_keys s x).0.running ≡ s.running
unfolding set_keys
set_keys-running s (k, e) = refl

or_teardown-running : (r : Step) → (or_teardown r).0.running ≡ r.0.running
unfolding or_teardown
or_teardown-running (t, none) = refl
or_teardown-running (t, some e) = refl

make_dir-running : (x : Option GoError) (s : Server) → (make_dir x s).0.running ≡ s.running
unfolding make_dir
make_dir-running none s = refl
make_dir-running (some e) s = refl

started-failed :
    (u t : Server) (x : GoError) (e : Option GoError)
    → u.running ≡ false
    → started (u, some x) ≡ some (t, e)
    → (t.running ≡ false) × Defined e
unfolding started
started-failed u t x e stopped h =
    let h2 = some-inj h in
    (ap (λ r. r.0.running) (sym h2) ∙ stopped, rw (ap (λ r. r.1) (sym h2)) (Defined-some x))

started-up :
    (u t : Server) (e : Option GoError)
    → started (u, none) ≡ some (t, e)
    → (t.running ≡ true) × (e ≡ none) × 8 ≤ length t.public_key
unfolding started
started-up u t e h = elim (Bool-cases (ltb (length u.public_key) 8)) [
  | inl short ↦ absurd (none-ne-some (rw short at h))
  | inr long ↦
      let h2 = some-inj (rw long at h) in
      (
        ap (λ r. r.0.running) (sym h2),
        ap (λ r. r.1) (sym h2),
        rw (ap (λ r. length r.0.public_key) (sym h2)) (not_ltb→le _ _ long),
      )
]

started-cases :
    (r : Step) (t : Server) (e : Option GoError)
    → r.0.running ≡ false
    → started r ≡ some (t, e)
    → ((t.running ≡ true) × (e ≡ none) × 8 ≤ length t.public_key)
      ⊎ ((t.running ≡ false) × Defined e)
started-cases (u, some x) t e stopped h = inr (started-failed u t x e stopped h)
started-cases (u, none) t e stopped h = inl (started-up u t e h)

module _ (x : Bool) where
  RunningIs : Server → Type 0
  RunningIs t = t.running ≡ x

  append_rule-running :
      (what : Bytes) (rule : Rule) (f : Failure) (t : Server)
      → RunningIs t
      → RunningIs (append_rule what rule f t).0
  unfolding append_rule RunningIs
  append_rule-running what rule f t h =
      report-keeps RunningIs what f (wg (add_rule rule (succeeds f)) t) h

  enable_forward-running :
      (f : Option GoError) (t : Server) → RunningIs t → RunningIs (enable_forward f t).0
  unfolding enable_forward RunningIs
  enable_forward-running none t h = h
  enable_forward-running (some e) t h = h

  setup_nat-running : (b : Boot) (t : Server) → RunningIs t → RunningIs (setup_nat b t).0
  unfolding setup_nat
  setup_nat-running b t h =
      and_then-keeps RunningIs _ _ (enable_forward-running b.forwarding t h) λ u k.
        and_then-keeps RunningIs _ _ (append_rule-running _ _ b.masqueraded u k) λ v l.
          and_then-keeps RunningIs _ _ (append_rule-running _ _ b.accepted_in v l)
            λ w m. append_rule-running _ _ b.accepted_out w m

  bring_up-running :
      (ip_text : List ℕ → Bytes) (b : Boot) (s : Server)
      → RunningIs s
      → RunningIs (bring_up ip_text b s).0
  unfolding bring_up to_interface RunningIs
  bring_up-running ip_text b s h =
      and_then-keeps RunningIs _ _
        (and_then-keeps RunningIs _ _ (make_dir-running b.made_dir s ∙ h) λ t h.
          and_then-keeps RunningIs _ _
            (labelled-keeps RunningIs _ (set_keys t _) (set_keys-running t _ ∙ h))
            λ u k.
              labelled-keeps RunningIs _ (setup_interface ip_text b (load_peers u))
                (setup_interface-keeps RunningIs (λ c t q h. h) ip_text b (load_peers u) k))
        λ v l.
          or_teardown-running (setup_nat b (add_peers b.installs v.peers.peers v))
          ∙ setup_nat-running b _
              (add_peers-keeps RunningIs (λ c t q h. h) b.installs v.peers.peers v l)

module _ (ip_text : List ℕ → Bytes) where
  -- A `start` that returns found the server running and left it as it was without an error, or it
  -- runs now without an error and with a public key of eight bytes at least, or it stays stopped
  -- with an error.
  pub start-cases :
      (b : Boot) (s t : Server) (e : Option GoError)
      → start ip_text b s ≡ some (t, e)
      → ((s.running ≡ true) × (t ≡ s) × (e ≡ none))
        ⊎ ((s.running ≡ false) × (t.running ≡ true) × (e ≡ none) × 8 ≤ length t.public_key)
        ⊎ ((s.running ≡ false) × (t.running ≡ false) × Defined e)
  unfolding start RunningIs
  start-cases b s t e h = elim (Bool-cases s.running) [
    | inl up ↦
        let h2 = some-inj (sym (if_true s.running _ _ up) ∙ h) in
        inl (up, ap (λ r. r.0) (sym h2), ap (λ r. r.1) (sym h2))
    | inr down ↦
        elim (started-cases (bring_up ip_text b s) t e (bring_up-running false ip_text b s down)
          (start-started ip_text b s (t, e) down h)) [
            | inl (r, n, l) ↦ inr (inl (down, r, n, l))
            | inr (r, n) ↦ inr (inr (down, r, n))
          ]
  ]
