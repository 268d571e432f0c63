-- ===== src/Forward.antt =====
-- lib/client.js: the way of a packet from the message queue to a subscriber (`deliver0`,
-- `deliverQoS`, `writeQoS`), and `client.publish`.
pub mod Rules
pub mod Checks
pub mod Qos
pub mod Callback
pub mod NoLocal
mod Examples
use aedes.Common.{
  ℕ, Bool, true, false, not, ◌&&◌, ◌||◌, List, [], ◌∷◌, Option, none, some, Text, text_eq, ltb,
  ◌==◌, if◌then◌else◌,
}
use aedes.Errors.{Error}
use aedes.Run.{Outcome, done, M, pure, throw, ◌>>◌, settle}
use aedes.Dict.{Slot, absent, builtin, own, slot}
use aedes.Packet.{Packet}
use aedes.World.{
  Client, World, Host, Func, Subscription, requested, asks_authorize_forward, asks_outgoing_update,
  asks_outgoing_clear, asks_outgoing_enqueue,
}
use aedes.World.Steps.{set_client, note, request}
use aedes.Session.MessageIds.{assign_id}
use aedes.Session.Duplicates.{dedupe}
use aedes.Write.{write, later}
use aedes.Broker.Failure.{on_error, emit_error}

-- `_packet.clientId === that.id`: a packet without a client id has `undefined` there, a client
-- without an id `null`.
abbrev pub same_client : Option Text → Option Text → Bool
same_client none id = false
same_client (some a) none = false
same_client (some a) (some b) = text_eq a b

-- `clientSub && (clientSub.qos || 0) < packet.qos`: then `clientSub.qos` is the QoS. A member of
-- `Object.prototype` has no `qos`; `undefined` is written 0 here.
abbrev pub downgrade : Slot Subscription → ℕ → ℕ
downgrade absent qos = qos
downgrade builtin qos = 0
downgrade (own s) qos = if ltb s.qos qos then s.qos else qos

-- `this.id`, as a condition
abbrev has_id : Option Text → Bool
has_id none = false
has_id (some []) = false
has_id (some (_ ∷ _)) = true

module _ {O : Type 0} (h : Host O) (c : ℕ) where
  -- `that.broker.authorizeForward(that, _packet)`: a hook that answers at once.
  unfoldable pub authorize_forward : Packet → World O → Option Packet × World O
  authorize_forward p w =
      let w' = note (some c) (requested (asks_authorize_forward p)) w in
      let (answer, o) = h.authorize_forward c p w'.outside in (answer, record w' { outside = o })

  unfoldable pub get_to_forward_packet : Packet → World O → Option Packet × World O
  unfolding authorize_forward dedupe
  get_to_forward_packet p w =
      if same_client p.client_id (w.clients c).id && p.nl
      then (none, w)
      else (let (fresh, client) = dedupe (w.clients c) p in
          let w' = set_client c client w in if fresh then authorize_forward p w' else (none, w'))

  -- `new Packet(original, broker)`
  abbrev pub make_packet : Packet → World O → Packet × World O
  make_packet p w =
      let (p', counter) = h.new_packet p w.broker.id w.broker.counter in
      (p', record w { broker = record (w.broker) { counter = counter } })

  -- The callback gets no error.
  deliver0_forward : Option Packet → M (World O) (Unit {0})
  deliver0_forward none w = later h (done tt) w
  deliver0_forward (some to_forward) w =
      let (p, w') = make_packet to_forward (h.meanwhile w) in
      settle (write h c (record p { qos = 0 })) pure (λ e v. pure tt (on_error h c e v)) w'

  unfoldable pub deliver0 : Packet → M (World O) (Unit {0})
  unfolding get_to_forward_packet deliver0_forward
  deliver0 p w = let (to_forward, w') = get_to_forward_packet p w in deliver0_forward to_forward w'

  -- `writeQoS(null, client, packet)`; with an error the packet is not written.
  write_qos : Packet → M (World O) (Unit {0})
  write_qos p = settle (write h c p) pure (λ e w. pure tt (emit_error h c e w))

  write_qos_error : Error → M (World O) (Unit {0})
  write_qos_error e w = pure tt (emit_error h c e w)

  -- `new QoSPacket(toForward, that)`, at the QoS of the client's subscription.
  qos_packet : Packet → World O → Packet × World O
  unfolding assign_id
  qos_packet to_forward w =
      let (made, w') = make_packet to_forward w in
      let (p, client) = assign_id to_forward made (w'.clients c) in
      let qos = downgrade (slot p.topic client.subscriptions) p.qos in
      (record p { qos = qos }, set_client c client w')

  -- The promise of `outgoingUpdate`, or none for a session that is clean.
  update_and_write : Packet → M (World O) (Unit {0})
  unfolding write_qos write_qos_error
  update_and_write p w =
      if (w.clients c).clean || p.retain
      then write_qos p w
      else settle
          (request h (some c) (asks_outgoing_update p) (h.outgoing_update (w.clients c).id p))
          (λ _. write_qos p) write_qos_error w

  -- Nothing waits for `outgoingClearMessageId`; here its promise comes before the callback.
  deliver_qos_forward : Packet → Option Packet → M (World O) (Unit {0})
  unfolding qos_packet update_and_write
  deliver_qos_forward original none w =
      if (w.clients c).clean
      then later h (done tt) w
      else later h (done tt)
          (request h (some c) (asks_outgoing_clear original)
            (h.outgoing_clear (w.clients c).id original) w).1
  deliver_qos_forward original (some to_forward) w =
      let (p, w') = qos_packet to_forward (h.meanwhile w) in update_and_write p w'

  unfoldable pub deliver_qos : Packet → M (World O) (Unit {0})
  unfolding deliver0 deliver_qos_forward get_to_forward_packet
  deliver_qos p w =
      if p.qos == 0
      then deliver0 p w
      else (let (to_forward, w') = get_to_forward_packet p w in deliver_qos_forward p to_forward w')

  -- `client.publish(message, done)`
  unfoldable pub client_publish : Packet → M (World O) (Unit {0})
  unfolding deliver0 deliver_qos
  client_publish message w =
      let (p, w') = make_packet message w in
      if p.qos == 0
      then deliver0 p w'
      else if not (w'.clients c).clean && has_id (w'.clients c).id
      then (request h (some c) (asks_outgoing_enqueue p) (h.outgoing_enqueue (w'.clients c).id p)
            >> deliver_qos p)
          w'
      else deliver_qos p w'

  -- The function of a subscription: `blockDollarSignTopics(handlePacketSubscription)` or
  -- `handlePacketSubscription` of lib/handlers/subscribe.js.
  starts_with_dollar : Text → Bool
  starts_with_dollar [] = false
  starts_with_dollar (x ∷ xs) = x == 36

  unfoldable pub deliver_subscribed : Func → Packet → M (World O) (Unit {0})
  unfolding deliver0 deliver_qos starts_with_dollar
  deliver_subscribed func p w =
      if func.block_dollar && starts_with_dollar p.topic
      then pure tt w
      else (let (made, w') = make_packet p w in
          let p' = record made { nl = func.nl; retain = if func.rap then made.retain else false } in
          if func.with_qos then deliver_qos p' w' else deliver0 p' w')
