-- ===== src/Session/Inbox/Bound.antt =====
-- The length of the queue between the parser and `handle` (lib/client.js).
use aedes.Common.{
  ℕ, ◌+◌, ◌-◌, ◌≤◌, ◌≡◌, refl, false, List, [], ◌∷◌, Option, none, some, length, length-append,
  arith,
}
use aedes.Packet.{Packet}
use aedes.Session.Inbox.{
  Inbox, handle_now, push_or_lose, enqueue, parse, next_batch, dequeue_from, dequeue, set_paused,
  InboxEvent, readable, handles_back, resumes, pauses, connacks, connects, inbox_step, inbox_run,
}

abbrev queue_length : Option (List Packet) → ℕ
queue_length none = 0
queue_length (some q) = length q

-- The queue keeps to the limit of the broker.
abbrev pub IsBounded : ℕ → Inbox → Type 0
IsBounded limit i = queue_length i.client.queue ≤ limit

push_or_lose-IsBounded :
    (limit : ℕ) (p : Packet) (q : Option (List Packet)) (i : Inbox)
    → i.client.queue ≡ q
    → IsBounded limit i
    → IsBounded limit (push_or_lose limit p q i)
unfolding push_or_lose
push_or_lose-IsBounded limit p none i e h = h
push_or_lose-IsBounded limit p (some q) i e h = ground (arith, length-append q (p ∷ []))

enqueue-IsBounded :
    (limit : ℕ) (p : Packet) (i : Inbox) → IsBounded limit i → IsBounded limit (enqueue limit p i)
unfolding enqueue handle_now
enqueue-IsBounded limit p i h =
    let i' : Inbox = record i {
      client = record (i.client) { parsing_batch = i.client.parsing_batch + 1 };
    } in
    let pushed = push_or_lose-IsBounded limit p i.client.queue i' refl h in ground (arith, pushed)

parse-IsBounded :
    (limit : ℕ) (ps : List Packet) (i : Inbox)
    → IsBounded limit i
    → IsBounded limit (parse limit ps i)
unfolding parse
parse-IsBounded limit [] i h = h
parse-IsBounded limit (p ∷ ps) i h =
    parse-IsBounded limit ps (enqueue limit p i) (enqueue-IsBounded limit p i h)

next_batch-IsBounded :
    (limit : ℕ) (ps : List Packet) (i : Inbox)
    → IsBounded limit i
    → IsBounded limit (next_batch limit ps i)
unfolding next_batch
next_batch-IsBounded limit ps i h =
    let i' : Inbox = record i {
      client = record (i.client) { parsing_batch = i.client.parsing_batch - 1 };
    } in
    let parsed = parse-IsBounded limit ps i' h in ground (arith, parsed)

dequeue_from-IsBounded :
    (limit : ℕ) (q : Option (List Packet)) (i : Inbox)
    → IsBounded limit i
    → IsBounded limit (dequeue_from q i)
unfolding dequeue_from
dequeue_from-IsBounded limit none i h = h
dequeue_from-IsBounded limit (some q) i h = omega arith

inbox_step-IsBounded :
    (limit : ℕ) (e : InboxEvent) (i : Inbox)
    → IsBounded limit i
    → IsBounded limit (inbox_step limit e i)
unfolding inbox_step dequeue set_paused
inbox_step-IsBounded limit (readable ps) i h = next_batch-IsBounded limit ps i h
inbox_step-IsBounded limit (handles_back ps) i h = next_batch-IsBounded limit ps i h
inbox_step-IsBounded limit (resumes ps) i h = next_batch-IsBounded limit ps (set_paused false i) h
inbox_step-IsBounded limit pauses i h = h
inbox_step-IsBounded limit connacks i h = h
inbox_step-IsBounded limit connects i h = dequeue_from-IsBounded limit i.client.queue i h

-- Whatever a connection sends and whenever it is read, the queue never holds more packets than the
-- limit of the broker.
pub inbox_run-IsBounded :
    (limit : ℕ) (es : List InboxEvent) (i : Inbox)
    → IsBounded limit i
    → IsBounded limit (inbox_run limit es i)
unfolding inbox_run
inbox_run-IsBounded limit [] i h = h
inbox_run-IsBounded limit (e ∷ es) i h =
    inbox_run-IsBounded limit es (inbox_step limit e i) (inbox_step-IsBounded limit e i h)
