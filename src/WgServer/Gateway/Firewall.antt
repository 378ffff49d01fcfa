-- ===== src/WgServer/Gateway/Firewall.antt =====
-- The rules of the firewall that `Start` leaves and `Stop` takes away
-- (internal/wgserver/server.go), in a table that holds the rules of all chains in order.
use mathlib.Core.List.{append_assoc as list_assoc, append-nil as list_nil}
use wg_proxy.Common.{
  arith, ℕ, ◌≡◌, refl, sym, ap, ◌∙◌, Bool, true, false, not, none, some, List, [], ◌∷◌, ◌++◌,
  if_true, if_false,
}
use wg_proxy.Common.Bytes.{Bytes, bytes_eq}
use wg_proxy.Common.Errors.{GoError}
use wg_proxy.WgServer.Server.{Server, Rule, wg, link_del, enable_forwarding, add_rule, delete_rule}
use wg_proxy.WgServer.Gateway.{
  Boot, and_then, report, append_rule, masquerade, accept_in, accept_out, enable_forward, setup_nat,
  Teardown, teardown_nat, or_teardown, start, stop,
}
use wg_proxy.WgServer.Gateway.Table.{
  delete_first, effect, table, table-append, has_rule, delete_first-append, append_assoc,
  append_assoc3, append_nil,
}
use wg_proxy.WgServer.Gateway.Success.{setup_nat-none, bring_up-Leads, started-none, start-started}

-- The table while the server runs.
table-setup_nat :
    (b : Boot) (v : Server) (T : List Rule)
    → table
        (wg (add_rule accept_out true) (
          wg (add_rule accept_in true) (
            wg
              (add_rule (masquerade v.settings.server_subnet b.interface) true)
              (wg enable_forwarding v)))).calls
        T
      ≡ table v.calls T
        ++ (masquerade v.settings.server_subnet b.interface ∷ accept_in ∷ accept_out ∷ [])
unfolding effect
table-setup_nat b v T =
    table-append _ (add_rule accept_out true) T
    ∙ (ap (λ x. x ++ (accept_out ∷ []))
          (table-append _ (add_rule accept_in true) T
            ∙ (ap (λ x. x ++ (accept_in ∷ []))
                  (table-append _ (add_rule (masquerade v.settings.server_subnet b.interface) true)
                      T
                    ∙ ap (λ x. x ++ (masquerade v.settings.server_subnet b.interface ∷ []))
                        (table-append v.calls enable_forwarding T))
                ∙ append_assoc _ _ _))
        ∙ append_assoc3 _ _ _ _)

-- A `stop` deletes the three rules, in the order in which they were added, each if its command
-- succeeds.
stop-table :
    (d : Teardown) (t : Server) (T : List Rule)
    → t.running ≡ true
    → table (stop d t).calls T
      ≡ effect (delete_rule accept_out d.dropped_out) (
          effect (delete_rule accept_in d.dropped_in) (
            effect
              (delete_rule (masquerade t.settings.server_subnet d.interface) d.unmasqueraded)
              (table t.calls T)))
unfolding stop teardown_nat effect
stop-table d t T up =
    ap (λ s. table s.calls T) (if_false (not t.running) t _ (ap not up))
    ∙ (table-append _ link_del T
        ∙ (table-append _ (delete_rule accept_out d.dropped_out) T
            ∙ ap (effect (delete_rule accept_out d.dropped_out)) (
                table-append _ (delete_rule accept_in d.dropped_in) T
                ∙ ap (effect (delete_rule accept_in d.dropped_in))
                    (table-append t.calls (delete_rule _ d.unmasqueraded) T))))

-- A rule whose deletion fails stays.
abbrev pub left : Bool → Rule → List Rule
left true r = []
left false r = r ∷ []

-- The rules that a stop leaves of the three.
abbrev pub kept_rules : Teardown → Rule → List Rule
kept_rules d m =
    left d.unmasqueraded m ++ (left d.dropped_in accept_in ++ left d.dropped_out accept_out)

has_rule-append :
    (r : Rule) (X Y : List Rule)
    → has_rule r X ≡ false
    → has_rule r Y ≡ false
    → has_rule r (X ++ Y) ≡ false
unfolding has_rule
has_rule-append r [] Y h k = k
has_rule-append r (x ∷ X) Y h k = ground (arith, has_rule-append r X Y)

has_rule-left : (b : Bool) (r m : Rule) → bytes_eq m r ≡ false → has_rule r (left b m) ≡ false
unfolding has_rule
has_rule-left true r m h = refl
has_rule-left false r m h = rw h refl

delete-left :
    (b : Bool) (r : Rule) (X pre rest : List Rule)
    → has_rule r X ≡ false
    → has_rule r pre ≡ false
    → effect (delete_rule r b) (X ++ (pre ++ (r ∷ rest))) ≡ X ++ (pre ++ (left b r ++ rest))
unfolding effect
delete-left true r X pre rest h k =
    ap (delete_first r) (sym (list_assoc X pre (r ∷ rest)))
    ∙ (delete_first-append r (X ++ pre) rest (has_rule-append r X pre h k) ∙ list_assoc X pre rest)
delete-left false r X pre rest h k = refl

masquerade-other :
    (subnet interface : Bytes)
    → (bytes_eq (masquerade subnet interface) accept_in ≡ false)
      × (bytes_eq (masquerade subnet interface) accept_out ≡ false)
      × (bytes_eq accept_in accept_out ≡ false)
unfolding bytes_eq
masquerade-other subnet interface = (refl, refl, refl)

delete_first-installed :
    (d : Teardown) (subnet interface : Bytes) (X : List Rule)
    → has_rule (masquerade subnet interface) X ≡ false
    → has_rule accept_in X ≡ false
    → has_rule accept_out X ≡ false
    → effect (delete_rule accept_out d.dropped_out) (
        effect (delete_rule accept_in d.dropped_in) (
          effect
            (delete_rule (masquerade subnet interface) d.unmasqueraded)
            (X ++ (masquerade subnet interface ∷ accept_in ∷ accept_out ∷ []))))
      ≡ X ++ kept_rules d (masquerade subnet interface)
unfolding has_rule
delete_first-installed d subnet interface X hm hi ho =
    let m = masquerade subnet interface in
    let (n1, n2, n3) = masquerade-other subnet interface in
    let a = left d.unmasqueraded m in
    let b = left d.dropped_in accept_in in
    let c = left d.dropped_out accept_out in
    let third =
      has_rule-append accept_out a b (has_rule-left d.unmasqueraded accept_out m n2)
        (has_rule-left d.dropped_in accept_out accept_in n3) in
    ap
      (λ z.
        effect (delete_rule accept_out d.dropped_out)
          (effect (delete_rule accept_in d.dropped_in) z))
      (delete-left d.unmasqueraded m X [] (accept_in ∷ accept_out ∷ []) hm refl)
    ∙ (ap (effect (delete_rule accept_out d.dropped_out)) (
          delete-left d.dropped_in accept_in X a (accept_out ∷ []) hi
            (has_rule-left d.unmasqueraded accept_in m n1))
        ∙ (ap (λ z. effect (delete_rule accept_out d.dropped_out) (X ++ z))
              (sym (list_assoc a b (accept_out ∷ [])))
            ∙ (delete-left d.dropped_out accept_out X (a ++ b) [] ho third
                ∙ ap (λ z. X ++ z)
                    (list_assoc a b (c ++ []) ∙ ap (λ z. a ++ (b ++ z)) (list_nil c)))))

-- The table that a stop leaves when the three rules are the last calls.
stop-installed :
    (d : Teardown) (b : Boot) (t v : Server) (X T : List Rule)
    → d.interface ≡ b.interface
    → t.running ≡ true
    → t.settings ≡ v.settings
    → table t.calls T
      ≡ table v.calls T
        ++ (masquerade v.settings.server_subnet b.interface ∷ accept_in ∷ accept_out ∷ [])
    → table v.calls T ≡ X
    → has_rule (masquerade v.settings.server_subnet b.interface) X ≡ false
    → has_rule accept_in X ≡ false
    → has_rule accept_out X ≡ false
    → table (stop d t).calls T ≡ X ++ kept_rules d (masquerade v.settings.server_subnet b.interface)
stop-installed d b t v X T i up c e x hm hi ho =
    let after : Rule → List Rule → List Rule = λ m z.
      effect (delete_rule accept_out d.dropped_out)
        (effect (delete_rule accept_in d.dropped_in) (effect (delete_rule m d.unmasqueraded) z)) in
    let rules = masquerade v.settings.server_subnet b.interface ∷ accept_in ∷ accept_out ∷ [] in
    stop-table d t T up
    ∙ (ap (λ z. after (masquerade z.server_subnet d.interface) (table t.calls T)) c
        ∙ (ap (λ z. after (masquerade v.settings.server_subnet z) (table t.calls T)) i
            ∙ (ap (after (masquerade v.settings.server_subnet b.interface))
                  (e ∙ ap (λ z. z ++ rules) x)
                ∙ delete_first-installed d v.settings.server_subnet b.interface X hm hi ho)))

module _ (ip_text : List ℕ → Bytes) where
  -- A server that was stopped, started without an error and is stopped again, with the same default
  -- interface both times, where none of its three rules was there before: the rules of the firewall
  -- are as they were, with those of the three behind them whose deletion failed; if all three
  -- deletions succeed, the rules are as they were.
  pub start-stop :
      (b : Boot) (d : Teardown) (s t : Server) (T : List Rule)
      → s.running ≡ false
      → start ip_text b s ≡ some (t, none)
      → d.interface ≡ b.interface
      → has_rule (masquerade s.settings.server_subnet b.interface) (table s.calls T) ≡ false
      → has_rule accept_in (table s.calls T) ≡ false
      → has_rule accept_out (table s.calls T) ≡ false
      → (table (stop d t).calls T
          ≡ table s.calls T ++ kept_rules d (masquerade s.settings.server_subnet b.interface))
        × (d.unmasqueraded ≡ true
            → d.dropped_in ≡ true
            → d.dropped_out ≡ true
            → table (stop d t).calls T ≡ table s.calls T)
  unfolding start
  start-stop b d s t T down h i hm hi ho =
      let (u, e, et) = started-none _ t (start-started ip_text b s _ down h) in
      let (v, (x, c), n) =
        bring_up-Leads T (table s.calls T) s.settings ip_text b s u (refl, refl) e in
      let eu = setup_nat-none b v u n in
      let et2 = sym et ∙ ap {A = Server} {B = Server} (λ u. record u { running = true }) eu in
      let found : table (stop d t).calls T
          ≡ table s.calls T ++ kept_rules d (masquerade s.settings.server_subnet b.interface) =
        stop-installed d b t v (table s.calls T) T i (ap (λ t. t.running) et2)
          (ap (λ t. t.settings) et2) (ap (λ t. table t.calls T) et2 ∙ table-setup_nat b v T) x
          (ap (λ z. has_rule (masquerade z.server_subnet b.interface) (table s.calls T)) c ∙ hm) hi
          ho
        ∙ ap (λ z. table s.calls T ++ kept_rules d (masquerade z.server_subnet b.interface)) c in
      (found, λ m i o. found ∙ rw (m, i, o) (append_nil (table s.calls T)))

-- Let the set-up of NAT enable forwarding and add the masquerading rule on a server that does not
-- run, and fail at its second rule. After the teardown of `Start`, and after a `stop`, whatever its
-- commands answer, the masquerading rule stands behind the rules that were there before.
pub stop-or_teardown :
    (b : Boot) (s : Server) (T : List Rule) (f : Bytes × GoError) (d : Teardown)
    → s.running ≡ false
    → b.forwarding ≡ none
    → b.masqueraded ≡ none
    → b.accepted_in ≡ some f
    → table (stop d (or_teardown (setup_nat b s)).0).calls T
      ≡ table s.calls T ++ (masquerade s.settings.server_subnet b.interface ∷ [])
unfolding stop or_teardown setup_nat and_then append_rule report enable_forward effect
stop-or_teardown b s T f d down hf hm hi = rw hf (
    rw hm (
      rw hi (
        ap (λ (t : Server). table t.calls T) (if_true (not s.running) _ _ (ap not down))
        ∙ (table-append _ link_del T
            ∙ (table-append _ (add_rule accept_in false) T
                ∙ (table-append _ (add_rule (masquerade s.settings.server_subnet b.interface) true)
                      T
                    ∙ ap (λ z. z ++ (masquerade s.settings.server_subnet b.interface ∷ []))
                        (table-append s.calls enable_forwarding T)))))))
