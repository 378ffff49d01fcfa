-- ===== src/Proxy/Socks/Target.antt =====
-- What `parseTarget` (internal/proxy/server.go) reads from a CONNECT request.
use wg_proxy.Common.{
  get_elem?-append_length, get_elem?-append_suc, take-length-append, le→not_ltb, ◌-◌, ℕ, suc, ◌+◌,
  ◌≤◌, ◌≡◌, ◌∙◌, some, ◌∷◌, ◌++◌, arith, length, length-append, get_elem?, get_elem?-Defined,
  Defined, defined, Defined-bind, Defined-if, Defined-some, ltb, leb, ◌==◌, not_ltb→le, not, false,
}
use wg_proxy.Common.Bytes.{Bytes, slice, slice-some}
use wg_proxy.Proxy.Socks.{parse_target, target_ipv4, target_domain, domain_text, port_of}

le_of_not-leb : (a b : ℕ) → not (leb a b) ≡ false → a ≤ b
le_of_not-leb a b h = ground arith

not-leb_of_le : (a b : ℕ) → a ≤ b → not (leb a b) ≡ false
not-leb_of_le a b h = ground arith

target_ipv4-Defined : (m : Bytes) → Defined (target_ipv4 m)
unfolding target_ipv4
target_ipv4-Defined m =
    Defined-if (not (leb 10 (length m))) _ _ (λ _. Defined-some _)
      λ long.
        let h : 10 ≤ length m = le_of_not-leb _ _ long in
        Defined-bind _ _ (get_elem?-Defined m 4 (omega arith)) λ a _.
          Defined-bind _ _ (get_elem?-Defined m 5 (omega arith)) λ b _.
            Defined-bind _ _ (get_elem?-Defined m 6 (omega arith)) λ c _.
              Defined-bind _ _ (get_elem?-Defined m 7 (omega arith)) λ d _.
                Defined-bind _ _ (get_elem?-Defined m 8 (omega arith)) λ hi _.
                  Defined-bind _ _ (get_elem?-Defined m 9 (omega arith)) λ lo _. Defined-some _

target_domain-Defined : (m : Bytes) → 7 ≤ length m → Defined (target_domain m)
unfolding target_domain
target_domain-Defined m h = Defined-bind _ _ (get_elem?-Defined m 4 (omega arith)) λ len _.
    Defined-if (not (leb (5 + len + 2) (length m))) _ _ (λ _. Defined-some _)
      λ long.
        let k : 5 + len + 2 ≤ length m = le_of_not-leb _ _ long in
        Defined-bind _ _ (get_elem?-Defined m (5 + len) (omega arith)) λ hi _.
          Defined-bind _ _ (get_elem?-Defined m (5 + len + 1) (omega arith)) λ lo _.
            Defined-bind _ _ (defined _ (slice-some m 5 (5 + len) (omega arith) (omega arith)))
              λ host _. Defined-some _

-- Whatever bytes the client sends, `parseTarget` returns: every index and slice bound that it uses
-- lies inside the message.
pub parse_target-Defined : (m : Bytes) → Defined (parse_target m)
unfolding parse_target
parse_target-Defined m =
    Defined-if (ltb (length m) 7) _ _ (λ _. Defined-some _)
      λ long.
        let h : 7 ≤ length m = not_ltb→le _ _ long in
        Defined-bind _ _ (get_elem?-Defined m 3 (omega arith)) λ kind _.
          Defined-if (kind == 1) _ _ (λ _. target_ipv4-Defined m)
            λ _. Defined-if (kind == 3) _ _ (λ _. target_domain-Defined m h) λ _. Defined-some _

-- A CONNECT request for a domain name: the header, the length and the name, the port.
abbrev pub connect_domain : ℕ → ℕ → ℕ → Bytes → ℕ → ℕ → Bytes → Bytes
connect_domain v c r host hi lo rest = v ∷ c ∷ r ∷ 3 ∷ length host ∷ (host ++ (hi ∷ lo ∷ rest))

-- The fields of a domain request, by their offsets behind its fixed header.
module _ (v c r : ℕ) (host : Bytes) (hi lo : ℕ) (rest : Bytes) where
  abbrev request : Bytes
  request = connect_domain v c r host hi lo rest

  length-request : length request ≡ length host + length rest + 7
  length-request = omega (arith, length-append host (hi ∷ lo ∷ rest))

  get-hi : get_elem? request (5 + length host) ≡ some hi
  get-hi =
      let e : 5 + length host ≡ suc (suc (suc (suc (suc (length host))))) = omega arith in
      rw e (get_elem?-append_length host (lo ∷ rest) hi)

  get-lo : get_elem? request (5 + length host + 1) ≡ some lo
  get-lo =
      let e : 5 + length host + 1 ≡ suc (suc (suc (suc (suc (suc (length host)))))) = omega arith in
      rw e (get_elem?-append_suc host rest hi lo)

  slice-host : slice request 5 (5 + length host) ≡ some host
  slice-host =
      let e : 5 + length host - 5 ≡ length host = omega arith in
      slice-some request 5 (5 + length host) (omega arith) (omega (arith, length-request))
      ∙ rw (e, take-length-append host (hi ∷ lo ∷ rest))

  -- The target that is logged for a domain request is the name that the client sent, with its port
  -- read in network order, whatever bytes follow.
  pub parse_target-connect_domain :
      parse_target (connect_domain v c r host hi lo rest) ≡ some (domain_text host (port_of hi lo))
  unfolding parse_target target_domain
  parse_target-connect_domain =
      let long : 7 ≤ length request = omega (arith, length-request) in
      let whole : not (leb (5 + length host + 2) (length request)) ≡ false =
        not-leb_of_le _ _ (omega (arith, length-request)) in
      rw (le→not_ltb (length request) 7 long, whole, get-hi, get-lo, slice-host)
