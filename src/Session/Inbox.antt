-- ===== src/Session/Inbox.antt =====
-- lib/client.js: how packets come from the parser to `handle` (`nextBatch`, `enqueue`, `dequeue`,
-- `pause`, `resume`).
pub mod Bound
pub mod Order
use aedes.Common.{
  ℕ, ◌+◌, ◌-◌, Bool, true, false, List, [], ◌∷◌, ◌++◌, Option, none, some, ltb, ◌==◌, if◌then◌else◌,
  length, ◌||◌,
}
use aedes.Packet.{Packet}
use aedes.World.{Client}

-- A client, the packets that were handed to `handle`, and those that were lost: the queue was at
-- its limit (the client gets the error 'Client queue limit reached'), or was null (a TypeError).
pub record Inbox : Type 0 where
  pub client : Client
  pub handled : List Packet
  pub lost : List Packet

handle_now : Packet → Inbox → Inbox
handle_now packet i = record i { handled = i.handled ++ (packet ∷ []) }

push_or_lose : ℕ → Packet → Option (List Packet) → Inbox → Inbox
push_or_lose limit packet none i = record i { lost = i.lost ++ (packet ∷ []) }
push_or_lose limit packet (some q) i =
    if ltb (length q) limit
    then record i { client = record (i.client) { queue = some (q ++ (packet ∷ [])) } }
    else record i { lost = i.lost ++ (packet ∷ []) }

-- `enqueue(packet)`, with the `queueLimit` of the broker.
enqueue : ℕ → Packet → Inbox → Inbox
unfolding handle_now push_or_lose
enqueue limit packet i =
    let batch = i.client.parsing_batch + 1 in
    let i' = record i { client = record (i.client) { parsing_batch = batch } } in
    if i.client.connack_sent || batch == 1
    then handle_now packet i'
    else push_or_lose limit packet i.client.queue i'

-- The parser emits the packets of one buffer one after the other.
parse : ℕ → List Packet → Inbox → Inbox
parse limit [] i = i
parse limit (p ∷ ps) i = parse limit ps (enqueue limit p i)

-- `nextBatch()`, where the connection has these packets to read.
next_batch : ℕ → List Packet → Inbox → Inbox
next_batch limit ps i =
    let batch = i.client.parsing_batch - 1 in
    let i' = record i { client = record (i.client) { parsing_batch = batch } } in
    if i.client.paused then i else if batch == 0 then parse limit ps i' else i'

-- `dequeue()`
dequeue_from : Option (List Packet) → Inbox → Inbox
dequeue_from none i = i
dequeue_from (some q) i = record i {
  client = record (i.client) { queue = none };
  handled = i.handled ++ q;
}

dequeue : Inbox → Inbox
unfolding dequeue_from
dequeue i = dequeue_from i.client.queue i

set_paused : Bool → Inbox → Inbox
set_paused b i = record i { client = record (i.client) { paused = b } }

-- What happens to a connection, as far as it matters here. `handles_back` is the callback of
-- `handle`, and `readable` the event of the connection; both are `nextBatch`, and come with what
-- can be read. `connacks` is the CONNACK being written, `connects` the event 'connected'.
pub data InboxEvent : Type 0 where
  readable handles_back resumes : List Packet → InboxEvent
  pauses connacks connects : InboxEvent

unfoldable pub inbox_step : ℕ → InboxEvent → Inbox → Inbox
unfolding enqueue parse next_batch dequeue set_paused
inbox_step limit (readable ps) i = next_batch limit ps i
inbox_step limit (handles_back ps) i = next_batch limit ps i
inbox_step limit (resumes ps) i = next_batch limit ps (set_paused false i)
inbox_step limit pauses i = set_paused true i
inbox_step limit connacks i = record i { client = record (i.client) { connack_sent = true } }
inbox_step limit connects i = dequeue i

unfoldable pub inbox_run : ℕ → List InboxEvent → Inbox → Inbox
unfolding inbox_step
inbox_run limit [] i = i
inbox_run limit (e ∷ es) i = inbox_run limit es (inbox_step limit e i)

-- A connection that was just accepted.
abbrev pub fresh_inbox : Client → Inbox
fresh_inbox client = record { client = client; handled = []; lost = [] }
