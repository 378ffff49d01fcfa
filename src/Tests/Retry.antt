-- ===== src/Tests/Retry.antt =====
-- Clients of the retrying proxy, and what a variable of the environment may hold.
use wg_proxy.Proxy.Itoa.{itoa}
use wg_proxy.Proxy.Itoa.Digits.{itoa-decimal}
use wg_proxy.Common.{
  ◌⊎◌, ℕ, zero, suc, ◌^◌, ◌<◌, ◌≡◌, refl, true, false, Option, none, some, List, [], ◌∷◌, arith,
  ◌==◌, if◌then◌else◌, keep, ◌%◌,
}
use wg_proxy.Common.Bytes.{Bytes, codes, decimal}
use wg_proxy.Config.{is_digit, int_of}
use wg_proxy.Config.Laws.{numeral, int_of-numeral}
use wg_proxy.Proxy.Conn.{Incoming, read_full, copy}
use wg_proxy.Proxy.Retry.{
  Attempt, no_conn, hello, try_backend, backend_index, find_upstream, Counters,
}
use wg_proxy.Proxy.Retry.Replies.{try_backend-forwards}
use wg_proxy.Proxy.Retry.Loop.{attempt_at, find_upstream-first}

abbrev reply_body : Bytes
reply_body = 10 ∷ 0 ∷ 0 ∷ 1 ∷ 31 ∷ 144 ∷ []

-- A stream that reports success, cut in odd places, with "ok" behind the reply.
abbrev good_stream : Incoming
good_stream =
    (5 ∷ []) ∷ (0 ∷ 5 ∷ 0 ∷ []) ∷ (0 ∷ 1 ∷ 10 ∷ 0 ∷ 0 ∷ 1 ∷ 31 ∷ 144 ∷ b'o' ∷ []) ∷ codes "k" ∷ []

-- A stream that asks for a password.
abbrev asking_stream : Incoming
asking_stream = (5 ∷ 2 ∷ []) ∷ []

-- Port 10001 is down, and port 10002 answers.
abbrev pub dial : ℕ → Option Incoming
dial n = if n == 10002 then some good_stream else none

abbrev dial_asking : ℕ → Option Incoming
dial_asking n = if n == 10001 then some asking_stream else some good_stream

abbrev pub ports : List ℕ
ports = 10001 ∷ 10002 ∷ []

abbrev request : Bytes
request = 5 ∷ 1 ∷ 0 ∷ 1 ∷ 1 ∷ 1 ∷ 1 ∷ 1 ∷ 0 ∷ 80 ∷ []

abbrev taken : Attempt
taken = record {
  writes = hello ∷ request ∷ [];
  conn = some (codes "o" ∷ codes "k" ∷ []);
  answer = 5 ∷ 0 ∷ 0 ∷ 1 ∷ reply_body;
  erred = false;
}

first_fails : attempt_at request dial ports 4 0 ≡ some (no_conn [] true)
unfolding backend_index try_backend
first_fails = refl

second_answers : attempt_at request dial ports 4 1 ≡ some taken
unfolding backend_index try_backend read_full
second_answers = refl

only_first :
    (i : ℕ)
    → i < 1
    → (u : Attempt) × (attempt_at request dial ports 4 i ≡ some u) × (u.erred ≡ true)
only_first zero h = (no_conn [] true, first_fails, refl)
only_first (suc i) h = absurd (omega arith)

find_upstream-first_example :
    ((c : Incoming) × (taken.conn ≡ some c)
      × (find_upstream request dial ports 4 ≡ some (some (c, taken.answer))))
    ⊎ ((taken.conn ≡ none) × (find_upstream request dial ports 4 ≡ some none))
find_upstream-first_example =
    find_upstream-first request dial ports 4 1 taken (omega arith) only_first second_answers refl

try_backend-forwards_example :
    (rest : Incoming) × (copy rest ≡ codes "ok")
    × (try_backend request (some good_stream)
        ≡ some (record {
          writes = hello ∷ request ∷ [];
          conn = some rest;
          answer = 5 ∷ 0 ∷ 0 ∷ 1 ∷ reply_body;
          erred = false;
        }))
try_backend-forwards_example =
    try_backend-forwards request good_stream 5 5 0 1 reply_body (codes "ok") (omega arith) refl refl

abbrev counters : Counters
counters = record { index = 3; conns = 3; bytes_in = 0; bytes_out = 0 }

abbrev pub client : Incoming
client = (5 ∷ 1 ∷ 0 ∷ []) ∷ request ∷ codes "GET" ∷ []

int_of-numeral_example : int_of (codes "-5") 10001 ≡ (
    if numeral 0 (keep is_digit (codes "-5")) % 2 ^ 64 == 0
    then 10001
    else numeral 0 (keep is_digit (codes "-5")) % 2 ^ 64)
int_of-numeral_example = int_of-numeral (codes "-5") 10001

-- The sign of a negative number is passed over.
minus_five : int_of (codes "-5") 10001 ≡ 5
unfolding int_of
minus_five = refl

itoa-decimal_example : itoa 10080 ≡ some (decimal 10080)
itoa-decimal_example = itoa-decimal 10080

itoa_test : itoa 10080 ≡ some (codes "10080")
unfolding itoa
itoa_test = refl
