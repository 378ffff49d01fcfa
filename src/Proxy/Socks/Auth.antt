-- ===== src/Proxy/Socks/Auth.antt =====
-- What `handleConnection` takes for a greeting and for a login (internal/proxy/server.go).
use wg_proxy.Common.{
  ℕ, suc, ◌+◌, ◌-◌, ◌≤◌, ◌<◌, ◌≡◌, ◌≢◌, ◌↔◌, refl, sym, ap, ◌∙◌, true, some, [], ◌∷◌, ◌++◌, arith,
  length, length-append, take, drop, take-length-append, length-take_of_le, length-drop,
  take-append-drop, get_elem?, ◌==◌, ltb, not_ltb→le, le→not_ltb, Defined, defined, Defined-bind,
  Defined-if, Defined-some, get_elem?-Defined, get_elem?-append_length, cut_at, not, some-inj,
  and_some-inv, guard-inv, bind-inv, drop-suc-length_append,
}
use wg_proxy.Common.Bytes.{Bytes, bytes_eq, bytes_eq_iff, bytes_eq_refl, slice, slice-some}
use wg_proxy.Proxy.Socks.{check_auth, is_greeting, is_connect}

pub is_greeting-Defined : (m : Bytes) → Defined (is_greeting m)
unfolding is_greeting
is_greeting-Defined m =
    Defined-if (ltb (length m) 2) _ _ (λ _. Defined-some _)
      λ long.
        let h : 2 ≤ length m = not_ltb→le _ _ long in
        Defined-bind _ _ (get_elem?-Defined m 0 (omega arith)) λ version _. Defined-some _

pub is_connect-Defined : (m : Bytes) → Defined (is_connect m)
unfolding is_connect
is_connect-Defined m =
    Defined-if (ltb (length m) 7) _ _ (λ _. Defined-some _)
      λ long.
        let h : 7 ≤ length m = not_ltb→le _ _ long in
        Defined-bind _ _ (get_elem?-Defined m 0 (omega arith)) λ version _.
          Defined-if (not (version == 5)) _ _ (λ _. Defined-some _)
            λ _. Defined-bind _ _ (get_elem?-Defined m 1 (omega arith)) λ command _. Defined-some _

-- Whatever the client sends for a login, no index and no slice bound passes the end of the message.
pub check_auth-Defined : (user pass m : Bytes) → Defined (check_auth user pass m)
unfolding check_auth
check_auth-Defined user pass m =
    Defined-if (ltb (length m) 5) _ _ (λ _. Defined-some _)
      λ long.
        let h : 5 ≤ length m = not_ltb→le _ _ long in
        Defined-bind _ _ (get_elem?-Defined m 0 (omega arith)) λ version _.
          Defined-if (not (version == 1)) _ _ (λ _. Defined-some _)
            λ _. Defined-bind _ _ (get_elem?-Defined m 1 (omega arith)) λ ulen _.
              Defined-if (ltb (length m) (2 + ulen + 1)) _ _ (λ _. Defined-some _)
                λ named.
                  let k : 2 + ulen + 1 ≤ length m = not_ltb→le _ _ named in
                  Defined-bind _ _
                    (defined _ (slice-some m 2 (2 + ulen) (omega arith) (omega arith)))
                    λ _ _. Defined-bind _ _ (get_elem?-Defined m (2 + ulen) (omega arith)) λ plen _.
                      Defined-if (ltb (length m) (2 + ulen + 1 + plen)) _ _ (λ _. Defined-some _)
                        λ whole.
                          let l : 2 + ulen + 1 + plen ≤ length m = not_ltb→le _ _ whole in
                          Defined-bind _ _
                            (defined _ (
                              slice-some m (2 + ulen + 1) (2 + ulen + 1 + plen) (omega arith)
                                (omega arith)))
                            λ _ _. Defined-some _

-- The parts of a message, by their offsets in its tail.
module _ (a b : ℕ) (t : Bytes) (n : ℕ) where
  slice-name : 2 + n + 1 ≤ length (a ∷ b ∷ t) → slice (a ∷ b ∷ t) 2 (2 + n) ≡ some (take n t)
  slice-name h =
      let e : 2 + n - 2 ≡ n = omega arith in
      slice-some (a ∷ b ∷ t) 2 (2 + n) (omega arith) (omega arith) ∙ rw e

  get-plen : get_elem? (a ∷ b ∷ t) (2 + n) ≡ get_elem? t n
  get-plen = let e : 2 + n ≡ suc (suc n) = omega arith in rw e

  slice-password :
      (p : ℕ)
      → 2 + n + 1 + p ≤ length (a ∷ b ∷ t)
      → slice (a ∷ b ∷ t) (2 + n + 1) (2 + n + 1 + p) ≡ some (take p (drop (suc n) t))
  slice-password p h =
      let e : 2 + n + 1 + p - (2 + n + 1) ≡ p = omega arith in
      let k : 2 + n + 1 ≡ suc (suc (suc n)) = omega arith in
      slice-some (a ∷ b ∷ t) (2 + n + 1) (2 + n + 1 + p) (omega arith) (omega arith) ∙ rw (e, k)

length-pos : (xs : Bytes) → xs ≢ [] → 0 < length xs
length-pos [] h = absurd (h refl)
length-pos (x ∷ xs) h = omega arith

-- A login message of RFC 1929, and what may stand behind it in the same read.
abbrev pub login : Bytes → Bytes → Bytes → Bytes
login user pass rest = 1 ∷ length user ∷ (user ++ (length pass ∷ (pass ++ rest)))

length-login :
    (user pass rest : Bytes)
    → length (login user pass rest) ≡ length user + length pass + length rest + 3
length-login user pass rest =
    omega (arith, length-append user (length pass ∷ (pass ++ rest)), length-append pass rest)

check_auth_complete :
    (user pass rest : Bytes)
    → 5 ≤ length (login user pass rest)
    → check_auth user pass (login user pass rest) ≡ some true
unfolding check_auth
check_auth_complete user pass rest h =
    let size = length-login user pass rest in
    let m = login user pass rest in
    let n = length user in
    let t = user ++ (length pass ∷ (pass ++ rest)) in
    rw (
      le→not_ltb (length m) 5 h,
      le→not_ltb (length m) (2 + n + 1) (omega arith),
      slice-name 1 n t n (omega arith),
      get-plen 1 n t n,
      get_elem?-append_length user (pass ++ rest) (length pass),
      le→not_ltb (length m) (2 + n + 1 + length pass) (omega arith),
      slice-password 1 n t n (length pass) (omega arith),
      take-length-append user (length pass ∷ (pass ++ rest)),
      drop-suc-length_append user (pass ++ rest) (length pass),
      take-length-append pass rest,
      bytes_eq_refl user,
      bytes_eq_refl pass,
    )

-- The bytes from which a name and a password were cut are a login message.
parts-login :
    (user pass t : Bytes) (n p : ℕ)
    → get_elem? t n ≡ some p
    → n + 1 + p ≤ length t
    → take n t ≡ user
    → take p (drop (suc n) t) ≡ pass
    → (rest : Bytes) × (1 ∷ n ∷ t ≡ login user pass rest)
parts-login user pass t n p e fits eu ep =
    let tail = drop (suc n) t in
    let ln : length (take n t) ≡ n = length-take_of_le n t (omega arith) in
    let lp : length (take p tail) ≡ p =
      length-take_of_le p tail (omega (arith, length-drop (suc n) t)) in
    let whole : t ≡ take n t ++ (p ∷ (take p tail ++ drop p tail)) =
      cut_at t n p e ∙ ap (λ r. take n t ++ (p ∷ r)) (sym (take-append-drop p tail)) in
    let un : length user ≡ n = sym (ap length eu) ∙ ln in
    let pn : length pass ≡ p = sym (ap length ep) ∙ lp in
    (drop p tail, ap (λ r. 1 ∷ n ∷ r) whole ∙ rw (eu, ep, un, pn))

check_auth_sound :
    (user pass m : Bytes)
    → check_auth user pass m ≡ some true
    → (rest : Bytes) × (m ≡ login user pass rest)
unfolding check_auth
check_auth_sound user pass [] e = ground arith
check_auth_sound user pass (v ∷ []) e = ground arith
check_auth_sound user pass (v ∷ n ∷ t) e =
    let m = v ∷ n ∷ t in
    let (long, e1) = guard-inv (ltb (length m) 5) _ e in
    let (version, e2) = guard-inv (not (v == 1)) _ e1 in
    let (named, e3) = guard-inv (ltb (length m) (2 + n + 1)) _ e2 in
    let h : 2 + n + 1 ≤ length m = not_ltb→le _ _ named in
    let (name, en, e4) = bind-inv (slice m 2 (2 + n)) _ e3 in
    let (p, ep, e5) = bind-inv (get_elem? m (2 + n)) _ e4 in
    let (fits, e6) = guard-inv (ltb (length m) (2 + n + 1 + p)) _ e5 in
    let k : 2 + n + 1 + p ≤ length m = not_ltb→le _ _ fits in
    let (word, ew, e7) = bind-inv (slice m (2 + n + 1) (2 + n + 1 + p)) _ e6 in
    let (same_name, same_word) = and_some-inv (bytes_eq name user) (bytes_eq word pass) e7 in
    let eu : name ≡ user = (bytes_eq_iff name user).0 same_name in
    let ew' : word ≡ pass = (bytes_eq_iff word pass).0 same_word in
    let v1 : v ≡ 1 = ground arith in
    let (rest, er) =
      parts-login user pass t n p (sym (get-plen v n t n) ∙ ep) (omega arith)
        (some-inj (sym (slice-name v n t n h) ∙ en) ∙ eu)
        (some-inj (sym (slice-password v n t n p k) ∙ ew) ∙ ew') in
    (rest, ap (λ (x : ℕ). x ∷ n ∷ t) v1 ∙ er)

-- With a user and a password set, the login phase accepts a message exactly when it is the login
-- message of that user and password, with any bytes behind it.
pub check_auth_iff :
    (user pass m : Bytes)
    → user ≢ []
    → pass ≢ []
    → (check_auth user pass m ≡ some true) ↔ ((rest : Bytes) × (m ≡ login user pass rest))
check_auth_iff user pass m hu hp = (
  check_auth_sound user pass m,
  λ w. rw (w.1) (
      check_auth_complete user pass w.0
        (omega (arith, length-login user pass w.0, length-pos user hu, length-pos pass hp))),
)
