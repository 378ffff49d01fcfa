-- ===== src/Proxy/Retry/Loop.antt =====
-- The loop of `RetryProxy.handleConn` (internal/proxy/retry.go).
use Prim.Native.Nat.{min}
use wg_proxy.Common.{
  le→not_ltb, some-inj, bind-inv, ℕ, zero, suc, ◌+◌, ◌-◌, ◌%◌, ◌^◌, ◌≤◌, ◌<◌, ◌≡◌, ◌≢◌, ◌⊎◌, inl,
  inr, Option-cases, refl, Bool, true, false, not, Option, none, some, List, [], ◌∷◌, ◌==◌, lt→ltb,
  ◌>>=◌, get_elem?, get_elem?-Defined, length, arith, Defined, Defined-bind, Defined-some, value_of,
}
use wg_proxy.Common.Bytes.{Bytes}
use wg_proxy.Proxy.Conn.{Incoming, read_full, copy}
use wg_proxy.Proxy.Conn.Laws.{read_full_lem}
use wg_proxy.Proxy.Retry.Replies.{try_backend-Defined}
use wg_proxy.Proxy.Retry.{
  Attempt, try_backend, max_retries, backend_index, attempts, find_upstream, no_conn, hello,
}

-- Below 2^63 the index of an attempt is the place that many steps behind the start, in range.
backend_index_lem :
    (v n attempt : ℕ) → v < 2 ^ 63 → backend_index v n attempt ≡ some ((v % n + attempt) % n)
unfolding backend_index
backend_index_lem v n attempt h = rw (lt→ltb v (2 ^ 63) h)

mod-ne : (s n a b : ℕ) → a < b → b < n → s < n → (s + a) % n ≢ (s + b) % n
mod-ne s n a b h k l = grind arith

-- Before the counter reaches 2^63, two different attempts of one connection, of which there are at
-- most as many as backends, go to different places in the list.
pub backend_index-ne :
    (v n a b : ℕ) → v < 2 ^ 63 → a < b → b < n → backend_index v n a ≢ backend_index v n b
backend_index-ne v n a b h k l =
    rw (backend_index_lem v n a h, backend_index_lem v n b h)
      λ e. mod-ne (v % n) n a b k l (grind arith) (some-inj e)

get_elem?-pos : (xs : List ℕ) (i x : ℕ) → get_elem? xs i ≡ some x → 0 < length xs
get_elem?-pos [] i x e = ground arith
get_elem?-pos (y ∷ xs) i x e = omega arith

refused_method :
    (request : Bytes) (c : Incoming) (version method : ℕ) (tail : Bytes)
    → copy c ≡ version ∷ method ∷ tail
    → method ≢ 0
    → try_backend request (some c) ≡ some (no_conn (hello ∷ []) false)
unfolding try_backend
refused_method request c version method tail sends refuses =
    let (full, bytes, rest) = read_full_lem 2 c (rw sends (omega arith)) in
    let bytes' : (read_full 2 c).bytes ≡ version ∷ method ∷ [] = rw sends at bytes in
    let refused : not (method == 0) ≡ true = ground arith in rw (full, bytes', try_backend, refused)

module _ (request : Bytes) (dial : ℕ → Option Incoming) (ports : List ℕ) (v : ℕ) where
  -- The attempt of that number, as the loop makes it.
  abbrev pub attempt_at : ℕ → Option Attempt
  attempt_at a = do
    idx ← backend_index v (length ports) a
    port ← get_elem? ports idx
    try_backend request (dial port)

  abbrev pub found : Attempt → Option (Incoming × Bytes)
  found t = elim t.conn [ none ↦ none | some c ↦ some (c, t.answer) ]

  -- One round.
  attempts_step :
      (rounds a : ℕ) (t : Attempt)
      → attempt_at a ≡ some t
      → attempts request dial ports v (suc rounds) a ≡ elim t.erred [
        | true ↦ attempts request dial ports v rounds (a + 1)
        | false ↦ some (found t)
      ]
  unfolding attempts
  attempts_step rounds a t e =
      let (idx, ei, e1) = bind-inv (backend_index v (length ports) a) _ e in
      let (port, ep, e2) = bind-inv (get_elem? ports idx) _ e1 in rw (ei, ep, e2, attempts)

  attempt_at-Defined : (a : ℕ) → v < 2 ^ 63 → a < length ports → Defined (attempt_at a)
  attempt_at-Defined a h k = rw (backend_index_lem v (length ports) a h) (
      Defined-bind _ _
        (get_elem?-Defined ports ((v % length ports + a) % length ports) (grind arith))
        λ port _. try_backend-Defined request (dial port))

  attempts-Defined :
      (rounds a : ℕ)
      → v < 2 ^ 63
      → rounds + a ≤ length ports
      → Defined (attempts request dial ports v rounds a)
  unfolding attempts
  attempts-Defined zero a h k = Defined-some none
  attempts-Defined (suc rounds) a h k =
      let (t, e) = value_of (attempt_at-Defined a h (omega arith)) in
      rw (attempts_step rounds a t e)
        (go t t.erred (attempts-Defined rounds (a + 1) h (omega arith)))
    where
      go :
          (t : Attempt) (erred : Bool)
          → Defined (attempts request dial ports v rounds (a + 1))
          → Defined (elim erred [
            | true ↦ attempts request dial ports v rounds (a + 1)
            | false ↦ some (found t)
          ])
      go t true d = d
      go t false d = Defined-some (found t)

  -- Before its counter of connections reaches 2^63, the search for a backend never panics.
  pub find_upstream-Defined : v < 2 ^ 63 → Defined (find_upstream request dial ports v)
  unfolding find_upstream
  find_upstream-Defined h = attempts-Defined (min max_retries (length ports)) 0 h (omega arith)

  attempts-first :
      (j rounds a : ℕ) (t : Attempt)
      → j < rounds
      → ((i : ℕ) → i < j → (u : Attempt) × (attempt_at (a + i) ≡ some u) × (u.erred ≡ true))
      → attempt_at (a + j) ≡ some t
      → t.erred ≡ false
      → attempts request dial ports v rounds a ≡ some (found t)
  attempts-first j zero a t h before here taken = absurd (omega arith)
  attempts-first zero (suc rounds) a t h before here taken =
      let e : a + 0 ≡ a = omega arith in rw (attempts_step rounds a t (rw e at here), taken)
  attempts-first (suc j) (suc rounds) a t h before here taken =
      let e : a + 0 ≡ a = omega arith in
      let (u, eu, erred) = before 0 (omega arith) in
      let shift : (i : ℕ) → a + suc i ≡ a + 1 + i = λ i. omega arith in
      rw (attempts_step rounds a u (rw e at eu), erred)
        (attempts-first j rounds (a + 1) t (omega arith)
          (λ i k. rw (shift i) at (before (suc i) (omega arith))) (rw (shift j) at here) taken)

  find_upstream_taken :
      (j : ℕ) (t : Attempt)
      → j < min max_retries (length ports)
      → ((i : ℕ) → i < j → (u : Attempt) × (attempt_at i ≡ some u) × (u.erred ≡ true))
      → attempt_at j ≡ some t
      → t.erred ≡ false
      → find_upstream request dial ports v ≡ some (found t)
  unfolding find_upstream
  find_upstream_taken j t h before here taken =
      let e : (i : ℕ) → 0 + i ≡ i = λ i. omega arith in
      attempts-first j (min max_retries (length ports)) 0 t h (λ i k. rw (e i) (before i k))
        (rw (e j) here) taken

  -- The search ends at the first attempt, among the first five and the listed backends in their
  -- order, that returns no error. If that attempt returns a connection, the client is given to it,
  -- with the reply that this backend sent; if it returns none, the client is given to no backend,
  -- and no other is tried.
  pub find_upstream-first :
      (j : ℕ) (t : Attempt)
      → j < min max_retries (length ports)
      → ((i : ℕ) → i < j → (u : Attempt) × (attempt_at i ≡ some u) × (u.erred ≡ true))
      → attempt_at j ≡ some t
      → t.erred ≡ false
      → ((c : Incoming) × (t.conn ≡ some c)
          × (find_upstream request dial ports v ≡ some (some (c, t.answer))))
        ⊎ ((t.conn ≡ none) × (find_upstream request dial ports v ≡ some none))
  find_upstream-first j t h before here taken =
      let e = find_upstream_taken j t h before here taken in
      elim (Option-cases t.conn) [
        | inl none_left ↦ inr (none_left, rw none_left at e)
        | inr (c, there) ↦ inl (c, there, rw there at e)
      ]

  attempts-none :
      (rounds a : ℕ)
      → ((i : ℕ) → i < rounds → (u : Attempt) × (attempt_at (a + i) ≡ some u) × (u.erred ≡ true))
      → attempts request dial ports v rounds a ≡ some none
  unfolding attempts
  attempts-none zero a all = refl
  attempts-none (suc rounds) a all =
      let e : a + 0 ≡ a = omega arith in
      let (u, eu, erred) = all 0 (omega arith) in
      let shift : (i : ℕ) → a + suc i ≡ a + 1 + i = λ i. omega arith in
      rw (attempts_step rounds a u (rw e at eu), erred)
        (attempts-none rounds (a + 1) (λ i k. rw (shift i) at (all (suc i) (omega arith))))

  -- A backend that answers the greeting with a method other than "no authentication" makes
  -- `tryBackend` return no connection and no error. If it is the first that is tried, the search
  -- ends with no upstream, whatever the other backends are.
  pub refused_method_ends :
      (port : ℕ) (c : Incoming) (version method : ℕ) (tail : Bytes)
      → v < 2 ^ 63
      → get_elem? ports (v % length ports) ≡ some port
      → dial port ≡ some c
      → copy c ≡ version ∷ method ∷ tail
      → method ≢ 0
      → find_upstream request dial ports v ≡ some none
  refused_method_ends port c version method tail h at_start dialled sends refuses =
      let n = length ports in
      let some_port : 0 < n = get_elem?-pos ports (v % n) port at_start in
      let start : (v % n + 0) % n ≡ v % n = grind arith in
      let here : attempt_at 0 ≡ some (no_conn (hello ∷ []) false) =
        rw (backend_index_lem v n 0 h, start, at_start, dialled)
          (refused_method request c version method tail sends refuses) in
      find_upstream_taken 0 (no_conn (hello ∷ []) false) (omega arith) (λ i k. absurd (omega arith))
        here refl

  -- With a counter from 2^63 on, whose distance to 2^64 is not a multiple of the number of
  -- backends, the start index is negative and the first attempt panics.
  pub find_upstream-panic :
      2 ^ 63 ≤ v
      → 0 < length ports
      → 0 < (2 ^ 64 - v) % length ports
      → find_upstream request dial ports v ≡ none
  unfolding find_upstream attempts backend_index
  find_upstream-panic h some_port off =
      let rounds : min max_retries (length ports) ≡ suc (min max_retries (length ports) - 1) =
        omega arith in
      rw (rounds, le→not_ltb v (2 ^ 63) h, lt→ltb 0 ((2 ^ 64 - v) % length ports) off)
