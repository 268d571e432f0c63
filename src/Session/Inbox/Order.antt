-- ===== src/Session/Inbox/Order.antt =====
-- The order in which the packets of a connection come to `handle` (lib/client.js).
use mathlib.Core.List.{append-nil, append_assoc}
use aedes.Common.{
  ℕ, ◌+◌, ◌≤◌, ◌<◌, ◌≡◌, refl, false, List, [], ◌∷◌, ◌++◌, some, length, length-append, arith, All,
}
use aedes.Packet.{Packet}
use aedes.Session.Sample.{new_client}
use aedes.Session.Inbox.{
  Inbox, handle_now, push_or_lose, enqueue, parse, next_batch, dequeue_from, dequeue, set_paused,
  InboxEvent, readable, handles_back, resumes, pauses, connacks, connects, inbox_step, inbox_run,
  fresh_inbox,
}

-- Nothing was lost, and the packets `q` wait behind the handled packets `h`.
pub record Holds (h q : List Packet) (i : Inbox) : Type 0 where
  pub handled : i.handled ≡ h
  pub lost : i.lost ≡ []
  pub waiting : i.client.queue ≡ some q

-- Packets that arrive now have to wait.
record IsWaiting (h q : List Packet) (i : Inbox) : Type 0 where
  holds : Holds h q i
  unsent : i.client.connack_sent ≡ false
  busy : 1 ≤ i.client.parsing_batch

enqueue-IsWaiting :
    (limit : ℕ) (p : Packet) (h q : List Packet) (i : Inbox)
    → IsWaiting h q i
    → length q < limit
    → IsWaiting h (q ++ (p ∷ [])) (enqueue limit p i)
unfolding enqueue push_or_lose
enqueue-IsWaiting limit p h q i w room = ground arith

parse-IsWaiting :
    (limit : ℕ) (ps h q : List Packet) (i : Inbox)
    → IsWaiting h q i
    → length q + length ps ≤ limit
    → IsWaiting h (q ++ ps) (parse limit ps i)
unfolding parse
parse-IsWaiting limit [] h q i w room = rw (append-nil q) w
parse-IsWaiting limit (p ∷ ps) h q i w room = rw (← append_assoc q (p ∷ []) ps) (
    parse-IsWaiting limit ps h (q ++ (p ∷ [])) (enqueue limit p i)
      (enqueue-IsWaiting limit p h q i w (omega arith)) (omega (arith, length-append q (p ∷ []))))

-- The first buffer of a connection: its first packet is handled, the others wait.
first_buffer :
    (limit random_id : ℕ) (p : Packet) (ps : List Packet)
    → length ps ≤ limit
    → IsWaiting
        (p ∷ [])
        ps
        (inbox_step limit (readable (p ∷ ps)) (fresh_inbox (new_client random_id)))
unfolding inbox_step next_batch parse enqueue handle_now
first_buffer limit random_id p ps room =
    parse-IsWaiting limit ps (p ∷ []) [] _ (ground arith) (omega arith)

-- Events that bring no packets, before the event 'connected'.
abbrev pub IsQuiet : InboxEvent → Type 0
IsQuiet (readable ps) = ps ≡ []
IsQuiet (handles_back ps) = ps ≡ []
IsQuiet (resumes ps) = ps ≡ []
IsQuiet pauses = Unit
IsQuiet connacks = Unit
IsQuiet connects = ⊥

next_batch-Holds :
    (limit : ℕ) (ps h q : List Packet) (i : Inbox)
    → ps ≡ []
    → Holds h q i
    → Holds h q (next_batch limit ps i)
unfolding next_batch parse
next_batch-Holds limit [] h q i e held = ground arith
next_batch-Holds limit (p ∷ ps) h q i e held = cc

quiet-Holds :
    (limit : ℕ) (e : InboxEvent) (h q : List Packet) (i : Inbox)
    → IsQuiet e
    → Holds h q i
    → Holds h q (inbox_step limit e i)
unfolding inbox_step set_paused
quiet-Holds limit (readable ps) h q i quiet held = next_batch-Holds limit ps h q i quiet held
quiet-Holds limit (handles_back ps) h q i quiet held = next_batch-Holds limit ps h q i quiet held
quiet-Holds limit (resumes ps) h q i quiet held =
    next_batch-Holds limit ps h q (set_paused false i) quiet
      (record { handled = held.handled; lost = held.lost; waiting = held.waiting })
quiet-Holds limit pauses h q i quiet held = record {
  handled = held.handled;
  lost = held.lost;
  waiting = held.waiting;
}
quiet-Holds limit connacks h q i quiet held = record {
  handled = held.handled;
  lost = held.lost;
  waiting = held.waiting;
}
quiet-Holds limit connects h q i quiet held = absurd quiet

quiet_run-Holds :
    (limit : ℕ) (es : List InboxEvent) (h q : List Packet) (i : Inbox)
    → All IsQuiet es
    → Holds h q i
    → Holds h q (inbox_run limit es i)
unfolding inbox_run
quiet_run-Holds limit [] h q i quiet held = held
quiet_run-Holds limit (e ∷ es) h q i quiet held =
    quiet_run-Holds limit es h q (inbox_step limit e i) quiet.1
      (quiet-Holds limit e h q i quiet.0 held)

inbox_run-append :
    (limit : ℕ) (es fs : List InboxEvent) (i : Inbox)
    → inbox_run limit (es ++ fs) i ≡ inbox_run limit fs (inbox_run limit es i)
unfolding inbox_run
inbox_run-append limit [] fs i = refl
inbox_run-append limit (e ∷ es) fs i = inbox_run-append limit es fs (inbox_step limit e i)

connects-handled :
    (limit : ℕ) (h q : List Packet) (i : Inbox)
    → Holds h q i
    → ((inbox_step limit connects i).handled ≡ h ++ q) × ((inbox_step limit connects i).lost ≡ [])
unfolding inbox_step dequeue dequeue_from
connects-handled limit h q i held = ground arith

-- A connection sends some packets in one buffer, at most the limit of the broker behind the first,
-- and nothing more is read before 'connected'. Then at 'connected' all of them have been handled,
-- in the order in which they were sent, and none was lost.
pub inbox_run-handled :
    (limit random_id : ℕ) (p : Packet) (ps : List Packet) (es : List InboxEvent)
    → length ps ≤ limit
    → All IsQuiet es
    → let i =
        inbox_run limit
          (readable (p ∷ ps) ∷ (es ++ (connects ∷ [])))
          (fresh_inbox (new_client random_id)) in
      (i.handled ≡ p ∷ ps) × (i.lost ≡ [])
unfolding inbox_run
inbox_run-handled limit random_id p ps es room quiet =
    let i = inbox_step limit (readable (p ∷ ps)) (fresh_inbox (new_client random_id)) in
    let held =
      quiet_run-Holds limit es (p ∷ []) ps i quiet (first_buffer limit random_id p ps room).holds in
    rw (inbox_run-append limit es (connects ∷ []) i)
      (connects-handled limit (p ∷ []) ps (inbox_run limit es i) held)

-- Packets that can be read before the CONNACK, while the client is not paused and so before
-- `authenticate` has paused it, come to `handle` at once: the test for the first packet holds for
-- the first packet of every buffer.
early_packet_handled :
    (limit random_id : ℕ) (p q : Packet)
    → let i =
        inbox_run limit
          (readable (p ∷ []) ∷ readable (q ∷ []) ∷ [])
          (fresh_inbox (new_client random_id)) in
      (i.handled ≡ p ∷ q ∷ []) × (i.client.connack_sent ≡ false)
unfolding inbox_run next_batch parse enqueue handle_now
early_packet_handled limit random_id p q = ground arith

-- A packet that is read between the CONNACK and 'connected' overtakes those that wait in the
-- queue.
pub late_packet_overtakes :
    (limit random_id : ℕ) (p q r : Packet)
    → 0 < limit
    → (inbox_run limit
        (readable (p ∷ q ∷ []) ∷ pauses ∷ connacks ∷ resumes [] ∷ readable (r ∷ []) ∷ connects ∷ [])
        (fresh_inbox (new_client random_id))).handled
      ≡ p ∷ r ∷ q ∷ []
unfolding inbox_run next_batch parse enqueue handle_now push_or_lose dequeue dequeue_from set_paused
late_packet_overtakes limit random_id p q r h = ground arith
