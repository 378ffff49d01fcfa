-- ===== src/Dashboard/Queues.antt =====
-- What the clients of the dashboard receive (internal/web/dashboard.go).
use mathlib.Core.Path.{subst}
use mathlib.Core.List.{Sublistᴰ, append_assoc, append-nil}
use mathlib.Core.List.Sublistᴰ
use wg_proxy.Common.{
  suc, ◌≤◌, ◌<◌, ◌≡◌, refl, sym, ap, ◌∙◌, inl, inr, some, List, [], ◌∷◌, ◌++◌, map, ltb, lt→ltb,
  ltb→lt, Bool-cases, length, length-append, All, some-inj, none-ne-some, arith, if_true,
}
use wg_proxy.Common.Bytes.{Bytes}
use wg_proxy.Dashboard.{
  Client, capacity, offer, take_from, take_messages, Reach, begins, connects, broadcasts, receives,
  leaves,
}

-- The messages that a client has, or will be given, are among those of the loop, in order.
pub record IsServed (log : List Bytes) (c : Client) : Type 0 where
  pub bounded : length c.queue ≤ capacity
  pub ordered : Sublistᴰ (c.written ++ c.queue) log

sublist-append_one :
    {xs ys : List Bytes} (m : Bytes) → Sublistᴰ xs ys → Sublistᴰ xs (ys ++ (m ∷ []))
sublist-append_one m (Sublistᴰ.slnil) = Sublistᴰ.cons Sublistᴰ.slnil
sublist-append_one m (Sublistᴰ.cons h) = Sublistᴰ.cons (sublist-append_one m h)
sublist-append_one m (Sublistᴰ.cons-cons e h) = Sublistᴰ.cons-cons e (sublist-append_one m h)

sublist-append_both :
    {xs ys : List Bytes} (m : Bytes) → Sublistᴰ xs ys → Sublistᴰ (xs ++ (m ∷ [])) (ys ++ (m ∷ []))
sublist-append_both m (Sublistᴰ.slnil) = Sublistᴰ.cons-cons refl Sublistᴰ.slnil
sublist-append_both m (Sublistᴰ.cons h) = Sublistᴰ.cons (sublist-append_both m h)
sublist-append_both m (Sublistᴰ.cons-cons e h) = Sublistᴰ.cons-cons e (sublist-append_both m h)

offer-IsServed :
    (log : List Bytes) (m : Bytes) (c : Client)
    → IsServed log c
    → IsServed (log ++ (m ∷ [])) (offer m c)
unfolding offer
offer-IsServed log m c h = elim (Bool-cases (ltb (length c.queue) capacity)) [
  | inl room ↦ rw room record {
    bounded = omega (arith, length-append c.queue (m ∷ []), ltb→lt (length c.queue) 8 room);
    ordered =
        subst (λ z. Sublistᴰ z (log ++ (m ∷ []))) (append_assoc c.written c.queue (m ∷ []))
          (sublist-append_both m h.ordered);
  }
  | inr full ↦ rw full record { bounded = h.bounded; ordered = sublist-append_one m h.ordered }
]

take_from-IsServed :
    (log queue written : List Bytes) (d : Client)
    → length queue ≤ capacity
    → Sublistᴰ (written ++ queue) log
    → take_from queue written ≡ some d
    → IsServed log d
unfolding take_from
take_from-IsServed log [] written d b o e = absurd (none-ne-some e)
take_from-IsServed log (m ∷ ms) written d b o e = subst (IsServed log) (some-inj e) record {
  bounded = omega arith;
  ordered = subst (λ z. Sublistᴰ z log) (sym (append_assoc written (m ∷ []) ms)) o;
}

All-swap :
    (P : Client → Type 0) (before after : List Client) (c d : Client)
    → (P c → P d)
    → All P (before ++ (c ∷ after))
    → All P (before ++ (d ∷ after))
All-swap P [] after c d f (h, hs) = (f h, hs)
All-swap P (b ∷ before) after c d f (h, hs) = (h, All-swap P before after c d f hs)

All-drop_one :
    (P : Client → Type 0) (before after : List Client) (c : Client)
    → All P (before ++ (c ∷ after))
    → All P (before ++ after)
All-drop_one P [] after c (h, hs) = hs
All-drop_one P (b ∷ before) after c (h, hs) = (h, All-drop_one P before after c hs)

All-offer :
    (log : List Bytes) (m : Bytes) (cs : List Client)
    → All (IsServed log) cs
    → All (IsServed (log ++ (m ∷ []))) (map (offer m) cs)
All-offer log m [] h = tt
All-offer log m (c ∷ cs) (h, hs) = (offer-IsServed log m c h, All-offer log m cs hs)

-- In every reachable state of the dashboard, the channel of each client holds eight messages at
-- most, and what was written to the client, followed by what its channel holds, are the messages of
-- the loop in their order, with some of them left out.
pub Reach-IsServed : {log : List Bytes} {cs : List Client} → Reach log cs → All (IsServed log) cs
Reach-IsServed begins = tt
Reach-IsServed (connects r) =
    (record { bounded = omega arith; ordered = Sublistᴰ.nil-sublist _ }, Reach-IsServed r)
Reach-IsServed (broadcasts m r) = All-offer _ m _ (Reach-IsServed r)
Reach-IsServed (receives before after c d r e) =
    All-swap (IsServed _) before after c d
      (λ h. take_from-IsServed _ c.queue c.written d h.bounded h.ordered e) (Reach-IsServed r)
Reach-IsServed (leaves before after c r) =
    All-drop_one (IsServed _) before after c (Reach-IsServed r)

take_messages-length :
    (queue written : List Bytes)
    → take_messages (length queue) record { queue = queue; written = written }
      ≡ record { queue = []; written = written ++ queue }
unfolding take_messages take_from
take_messages-length [] written = rw append-nil refl
take_messages-length (m ∷ ms) written =
    take_messages-length ms (written ++ (m ∷ []))
    ∙ ap {A = List Bytes} {B = Client} (λ z. record { queue = []; written = z })
        (append_assoc written (m ∷ []) ms)

-- A message that is broadcast while a client's channel has room is the last that was written to the
-- client after one round of its loop for each message in front and one for the message.
pub take_messages-offer :
    (m : Bytes) (c : Client)
    → length c.queue < capacity
    → take_messages (suc (length c.queue)) (offer m c)
      ≡ record { queue = []; written = c.written ++ (c.queue ++ (m ∷ [])) }
unfolding offer
take_messages-offer m c room =
    ap (take_messages (suc (length c.queue))) (if_true _ _ _ (lt→ltb _ _ room))
    ∙ (ap (λ n. take_messages n record { queue = c.queue ++ (m ∷ []); written = c.written })
          (sym (length-append c.queue (m ∷ []) ∙ omega arith))
        ∙ take_messages-length (c.queue ++ (m ∷ [])) c.written)
