-- ===== src/Dashboard/Stream.antt =====
-- What `HandleSSE` writes to a client of the dashboard (internal/web/dashboard.go), and how the
-- client reads it: the format text/event-stream, of which `onmessage` in
-- internal/web/static/index.html gets the data of each event.
use mathlib.Core.Path.{subst}
use mathlib.Core.List.{Memᴰ, Sublistᴰ, append_assoc, append-nil}
use mathlib.Core.List.Sublistᴰ
use wg_proxy.Common.{
  ◌≡◌, refl, sym, ap, Bool, true, Option, none, some, List, [], ◌∷◌, ◌++◌, if◌then◌else◌, All,
  All-append, All-mem,
}
use wg_proxy.Common.Bytes.{Bytes, codes}
use wg_proxy.Common.Errors.{Result, ok, err}
use wg_proxy.Common.Strings.{has_prefix, trim_prefix, split}
use wg_proxy.Common.Ini.{is_line, are_lines, unlines, split-unlines}
use wg_proxy.Dashboard.{Client, Reach}
use wg_proxy.Dashboard.Queues.{IsServed, Reach-IsServed}

-- `data: %s\n\n`
unfoldable pub event : Bytes → Bytes
event m = codes "data: " ++ (m ++ (b'\n' ∷ b'\n' ∷ []))

unfoldable pub events : List Bytes → Bytes
unfolding event
events [] = []
events (m ∷ ms) = event m ++ events ms

-- The state that is sent first, where its coding succeeded.
unfoldable pub first_message : Result Bytes → List Bytes
first_message (ok m) = m ∷ []
first_message (err e) = []

-- The response of `HandleSSE`: its error 500, or what was written to the stream so far.
pub data Answer : Type 0 where
  not_supported : Answer
  stream : Bytes → Answer

-- `HandleSSE`, where `flushes` tells whether the writer is a `http.Flusher`, `first` is the coding
-- of the state at the start, and the messages are those that were taken from the channel.
unfoldable pub handle_sse : Bool → Result Bytes → List Bytes → Answer
unfolding events first_message
handle_sse flushes first messages =
    if flushes then stream (events (first_message first ++ messages)) else not_supported

-- The reader of an event stream: `data` lines are joined, other lines are passed over, and an empty
-- line ends the event.
abbrev pub joined : Option Bytes → Bytes → Bytes
joined none v = v
joined (some d) v = d ++ (b'\n' ∷ v)

unfoldable pub add_line : Bytes → Option Bytes → Option Bytes
add_line l d =
    if has_prefix l (codes "data: ") then some (joined d (trim_prefix l (codes "data: "))) else d

abbrev pub dispatched : Option Bytes → List Bytes → List Bytes
dispatched none out = out
dispatched (some d) out = d ∷ out

unfoldable pub read_lines : Option Bytes → List Bytes → List Bytes
unfolding add_line
read_lines d [] = []
read_lines d ([] ∷ ls) = dispatched d (read_lines none ls)
read_lines d ((c ∷ l) ∷ ls) = read_lines (add_line (c ∷ l) d) ls

unfoldable pub read_events : Bytes → List Bytes
unfolding read_lines
read_events body = read_lines none (split b'\n' body)

-- The lines of a stream.
abbrev event_lines : List Bytes → List Bytes
event_lines [] = []
event_lines (m ∷ ms) = (codes "data: " ++ m) ∷ [] ∷ event_lines ms

events-unlines : (ms : List Bytes) → events ms ≡ unlines (event_lines ms)
unfolding events event unlines
events-unlines [] = refl
events-unlines (m ∷ ms) =
    rw (events-unlines ms) (ap (λ z. codes "data: " ++ z) (append_assoc m (b'\n' ∷ b'\n' ∷ []) _))

abbrev pub IsLine : Bytes → Type 0
IsLine m = is_line m ≡ true

event_lines-are_lines : (ms : List Bytes) → All IsLine ms → are_lines (event_lines ms) ≡ true
unfolding are_lines is_line
event_lines-are_lines [] h = refl
event_lines-are_lines (m ∷ ms) (h, hs) = rw (h, event_lines-are_lines ms hs) refl

read_lines-event_lines : (ms : List Bytes) → read_lines none (event_lines ms ++ ([] ∷ [])) ≡ ms
unfolding read_lines add_line has_prefix trim_prefix
read_lines-event_lines [] = refl
read_lines-event_lines (m ∷ ms) = ap (◌∷◌ m) (read_lines-event_lines ms)

read_events-events : (ms : List Bytes) → All IsLine ms → read_events (events ms) ≡ ms
unfolding read_events
read_events-events ms h =
    rw (events-unlines ms, split-unlines (event_lines ms) (event_lines-are_lines ms h))
      (read_lines-event_lines ms)

Sublistᴰ-All : (P : Bytes → Type 0) {xs ys : List Bytes} → Sublistᴰ xs ys → All P ys → All P xs
Sublistᴰ-All P (Sublistᴰ.slnil) h = tt
Sublistᴰ-All P (Sublistᴰ.cons s) (h, hs) = Sublistᴰ-All P s hs
Sublistᴰ-All P (Sublistᴰ.cons-cons e s) (h, hs) = (subst P (sym e) h, Sublistᴰ-All P s hs)

Sublistᴰ-left : (xs ys : List Bytes) → Sublistᴰ xs (xs ++ ys)
Sublistᴰ-left xs ys =
    rw append-nil at (Sublistᴰ.append (Sublistᴰ.refl xs) (Sublistᴰ.nil-sublist ys))

-- Let a client be connected, in a reachable state of the dashboard, where no message has a line
-- feed. What it reads from its stream, where the writer can flush, is the state at its start, if
-- that could be coded, and then messages of the loop in their order.
pub handle_sse-read_events :
    {log : List Bytes} {cs : List Client} (first : Result Bytes) (c : Client)
    → All IsLine (first_message first)
    → All IsLine log
    → Reach log cs
    → Memᴰ c cs
    → (body : Bytes) × (handle_sse true first c.written ≡ stream body)
      × (read_events body ≡ first_message first ++ c.written)
      × Sublistᴰ c.written log
unfolding handle_sse
handle_sse-read_events first c h k r m =
    let served = All-mem (IsServed _) _ (Reach-IsServed r) m in
    let written : Sublistᴰ c.written _ =
      Sublistᴰ.trans (Sublistᴰ-left c.written c.queue) served.ordered in
    (
      _,
      refl,
      read_events-events (first_message first ++ c.written)
          (All-append IsLine (first_message first) c.written h (Sublistᴰ-All IsLine written k)),
      written,
    )
