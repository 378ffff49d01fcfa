-- ===== src/Proxy/Connection/Handshake.antt =====
-- What a backend has sent that `handleConnection` accepts (internal/proxy/server.go).
use wg_proxy.Common.{
  ℕ, ◌≡◌, ◌⊎◌, inl, inr, refl, sym, ap, ◌∙◌, true, false, not, ◌||◌, Option, none, some, List, [],
  ◌∷◌, ◌==◌, ==_iff, Bool-cases, ltb, get_elem?, length, arith, bind-inv, some-inj,
}
use wg_proxy.Common.Bytes.{Bytes}
use wg_proxy.Proxy.Conn.{Incoming, got, read, fill}
use wg_proxy.Proxy.Connection.Safety.{Read-cases}
use wg_proxy.Proxy.Connection.{Backend, Phase, backend_handshake, read_answer}

-- A backend whose answer reports success in its second byte, and what it sends behind the answer.
abbrev pub Accepts : Incoming → Incoming → Type 0
Accepts sends rest = (m : Bytes) × (read 256 sends ≡ got m rest) × (get_elem? m 1 ≡ some 0)

pub read_answer-inv :
    (sends : Incoming) (o : Option Incoming)
    → read_answer sends ≡ some o
    → (o ≡ none) ⊎ ((rest : Incoming) × (o ≡ some rest) × Accepts sends rest)
unfolding read_answer
read_answer-inv sends o e = elim (Read-cases (read 256 sends)) [
  | inl dead ↦ inl (sym (some-inj (rw (dead, read_answer) at e)))
  | inr (m, rest, here) ↦ elim (Bool-cases (ltb (length m) 2)) [
    | inl short ↦ inl (sym (some-inj (rw (here, read_answer, short) at e)))
    | inr long ↦
        let (rep, er, e2) = bind-inv (get_elem? m 1) _ (rw (here, read_answer, long) at e) in
        elim (Bool-cases (rep == 0)) [
          | inr bad ↦ inl (sym (some-inj (rw bad at e2)))
          | inl good ↦ inr (
            rest,
            sym (some-inj (rw good at e2)),
            (m, here, er ∙ ap some ((==_iff rep 0).0 good)),
          )
        ]
  ]
]

-- A backend whose answer to the greeting names version 5 and no authentication, read into two zero
-- bytes; both messages were sent to it.
abbrev pub Meets : Backend → Bytes → List Bytes → Incoming → Type 0
Meets b request ws sends =
    (m : Bytes) × (read 2 b.sends ≡ got m sends)
    × (get_elem? (fill 2 m) 0 ≡ some 5)
    × (get_elem? (fill 2 m) 1 ≡ some 0)
    × (ws ≡ (5 ∷ 1 ∷ 0 ∷ []) ∷ request ∷ [])

test-inv : (v m : ℕ) → (not (v == 5) || not (m == 0)) ≡ false → (v ≡ 5) × (m ≡ 0)
test-inv v m h = ground arith

phase-sends : Option Phase → Option Incoming
phase-sends none = none
phase-sends (some ph) = ph.1

pub backend_handshake-inv :
    (b : Backend) (request : Bytes) (met : Phase)
    → backend_handshake b request ≡ some met
    → (met.1 ≡ none) ⊎ ((sends : Incoming) × (met.1 ≡ some sends) × Meets b request met.0 sends)
unfolding backend_handshake phase-sends
backend_handshake-inv b request met e = elim (Bool-cases (not b.takes_greeting)) [
  | inl deaf ↦ inl (ap phase-sends (sym (rw (deaf, backend_handshake) at e)))
  | inr hears ↦
      let e0 = rw (hears, backend_handshake) at e in
      elim (Read-cases (read 2 b.sends)) [
        | inl dead ↦ inl (ap phase-sends (sym (rw (dead) at e0)))
        | inr (m, rest, here) ↦
            let (v, ev, e1) = bind-inv (get_elem? (fill 2 m) 0) _ (rw here at e0) in
            let (k, ek, e2) = bind-inv (get_elem? (fill 2 m) 1) _ e1 in
            elim (Bool-cases (not (v == 5) || not (k == 0))) [
              | inl bad ↦ inl (ap phase-sends (sym (rw bad at e2)))
              | inr good ↦ elim (Bool-cases (not b.takes_request)) [
                | inl lost ↦ inl (ap phase-sends (sym (rw (good, lost) at e2)))
                | inr kept ↦
                    let same = some-inj (rw (good, kept) at e2) in
                    let (v5, k0) = test-inv v k good in
                    inr (
                      rest,
                      ap (λ (ph : Phase). ph.1) (sym same),
                      (
                        m,
                        here,
                        ev ∙ ap some v5,
                        ek ∙ ap some k0,
                        ap (λ (ph : Phase). ph.0) (sym same),
                      ),
                    )
              ]
            ]
      ]
]

-- `backendHandshake` reads its two bytes by one `Read`, which may return with one. A backend whose
-- first segment is the version byte alone is taken to have chosen no authentication: the missing
-- byte is read as the zero of the new buffer.
pub backend_handshake-short :
    (request : Bytes) (later : Incoming)
    → backend_handshake
        (record {
          sends = (5 ∷ []) ∷ later;
          takes_greeting = true;
          takes_request = true;
          takes = none;
          client_takes = none;
        })
        request
      ≡ some ((5 ∷ 1 ∷ 0 ∷ []) ∷ request ∷ [], some later)
unfolding backend_handshake read
backend_handshake-short request later = refl
