-- ===== src/WgServer/Gateway/Table.antt =====
-- A table of firewall rules, and what the server's calls do to it (internal/wgserver/server.go).
use wg_proxy.Common.{
  ◌≡◌, refl, ap, ◌∙◌, Bool, true, false, ◌||◌, List, [], ◌∷◌, ◌++◌, if◌then◌else◌, if_false, arith,
}
use wg_proxy.Common.Bytes.{bytes_eq, bytes_eq_refl}
use wg_proxy.WgServer.Server.{WgCall, Rule, add_rule, delete_rule}
use wg_proxy.WgServer.Gateway.Steps.{is_quiet}

-- `iptables -D` deletes the first rule that matches, if it succeeds.
unfoldable pub delete_first : Rule → List Rule → List Rule
delete_first r [] = []
delete_first r (x ∷ t) = if bytes_eq x r then t else x ∷ delete_first r t

unfoldable pub effect : WgCall → List Rule → List Rule
unfolding delete_first
effect (add_rule r true) t = t ++ (r ∷ [])
effect (delete_rule r true) t = delete_first r t
effect _ t = t

-- The table after some calls.
unfoldable pub table : List WgCall → List Rule → List Rule
table [] t = t
table (c ∷ cs) t = table cs (effect c t)

pub table-append :
    (cs : List WgCall) (c : WgCall) (t : List Rule)
    → table (cs ++ (c ∷ [])) t ≡ effect c (table cs t)
unfolding table
table-append [] c t = refl
table-append (d ∷ cs) c t = table-append cs c (effect d t)

pub effect-quiet : (c : WgCall) (t : List Rule) → is_quiet c ≡ true → effect c t ≡ t
unfolding effect
effect-quiet (add_rule r true) t h = ground arith
effect-quiet (add_rule r false) t h = refl
effect-quiet (delete_rule r true) t h = ground arith
effect-quiet (delete_rule r false) t h = refl
effect-quiet _ t h = refl

or-eq-false : (a b : Bool) → (a || b) ≡ false → (a ≡ false) × (b ≡ false)
or-eq-false a b h = ground arith

unfoldable pub has_rule : Rule → List Rule → Bool
has_rule r [] = false
has_rule r (x ∷ t) = bytes_eq x r || has_rule r t

-- The first match is the rule behind the rules that were there before.
pub delete_first-append :
    (r : Rule) (t rest : List Rule)
    → has_rule r t ≡ false
    → delete_first r (t ++ (r ∷ rest)) ≡ t ++ rest
unfolding has_rule delete_first
delete_first-append r [] rest h = rw (bytes_eq_refl r) refl
delete_first-append r (x ∷ t) rest h =
    let (other, later) = or-eq-false _ _ h in
    if_false _ _ _ other ∙ ap (◌∷◌ x) (delete_first-append r t rest later)

pub append_assoc : (t : List Rule) (r q : Rule) → (t ++ (r ∷ [])) ++ (q ∷ []) ≡ t ++ (r ∷ q ∷ [])
append_assoc [] r q = refl
append_assoc (x ∷ t) r q = ap (◌∷◌ x) (append_assoc t r q)

pub append_assoc3 :
    (t : List Rule) (r q o : Rule) → (t ++ (r ∷ q ∷ [])) ++ (o ∷ []) ≡ t ++ (r ∷ q ∷ o ∷ [])
append_assoc3 [] r q o = refl
append_assoc3 (x ∷ t) r q o = ap (◌∷◌ x) (append_assoc3 t r q o)

pub append_nil : (t : List Rule) → t ++ [] ≡ t
append_nil [] = refl
append_nil (x ∷ t) = ap (◌∷◌ x) (append_nil t)
