-- ===== src/Broker/Publishing.antt =====
-- aedes.js: `publish`, and the functions that it runs one after the other.
pub mod Emission
pub mod Still
pub mod Ending
pub mod Exact
use aedes.Common.{
  ℕ, Bool, true, not, ◌&&◌, List, [], ◌∷◌, Option, none, some, Text, codes, starts_with, ltb, ◌==◌,
  if◌then◌else◌,
}
use aedes.Errors.{too_many_levels}
use aedes.Run.{silent, M, pure, throw, ◌>>◌, settle, run_series}
use aedes.Topic.{topic_level_count, plus, hash}
use aedes.Packet.{Packet}
use aedes.World.{
  World, Host, asks_store_retained, asks_mq_emit, asks_subscriptions_by_topic, asks_enqueue_combi,
  asks_published, requested, error_event, publish_event,
}
use aedes.World.Steps.{note, emit, request, call_back}

abbrev pub sys_prefix : Text
sys_prefix = codes "$SYS/"

-- `removeSharp(sub)`: the filter keeps a subscription whose topic begins with no wildcard.
abbrev remove_sharp : Text → Bool
remove_sharp [] = true
remove_sharp (c ∷ cs) = not (c == plus) && not (c == hash)

abbrev keep : (Text → Bool) → List Text → List Text
keep p [] = []
keep p (x ∷ xs) = let rest = keep p xs in if p x then x ∷ rest else rest

module _ {O : Type 0} (h : Host O) (client : Option ℕ) where
  pub store_retained : Packet → M (World O) Packet
  store_retained p =
      if p.retain
      then request h client (asks_store_retained p) (h.store_retained p) >> pure p
      else pure p

  -- `packet.clientId = this.client.id`, if there is a client.
  stamp : Option ℕ → World O → Packet → Packet
  stamp none w p = p
  stamp (some c) w p = record p { client_id = (w.clients c).id }

  pub emit_packet : Packet → M (World O) Packet
  unfolding stamp
  emit_packet p w =
      let p' = stamp client w p in (request h client (asks_mq_emit p') (h.mq_emit p') >> pure p') w

  -- `DoEnqueues`. If the subscriptions cannot be had, the broker emits the error, and `complete` is
  -- never called.
  pub enqueue_offline : Packet → M (World O) Packet
  enqueue_offline p =
      settle
        (request h client (asks_subscriptions_by_topic p.topic) (h.subscriptions_by_topic p.topic))
        (λ subs.
          let subs' = if starts_with sys_prefix p.topic then keep remove_sharp subs else subs in
          request h client (asks_enqueue_combi p) (h.enqueue_combi subs' p) >> pure p)
        (λ e w. (silent, emit client (error_event e) w))

  -- The hook `published` gets the packet that `publish` was called with; the event 'publish' is
  -- emitted before the hook's callback is waited for.
  pub call_published : Packet → Packet → M (World O) Packet
  call_published original p w =
      let w' =
        emit client (publish_event original)
          (note client (requested (asks_published original)) w) in
      (call_back h (h.published original w'.outside) >> pure p) w'

  publish_funcs_simple : Packet → List (Packet → M (World O) Packet)
  publish_funcs_simple original = store_retained ∷ emit_packet ∷ call_published original ∷ []

  publish_funcs_qos : Packet → List (Packet → M (World O) Packet)
  publish_funcs_qos original =
      store_retained ∷ enqueue_offline ∷ emit_packet ∷ call_published original ∷ []

  -- `broker.publish(packet, client, done)`
  unfoldable pub publish : Packet → M (World O) (Unit {0})
  unfolding publish_funcs_simple publish_funcs_qos store_retained enqueue_offline emit_packet
      call_published run_series topic_level_count starts_with
  publish packet w =
      if ltb w.broker.max_topic_levels (topic_level_count (some packet.topic))
      then throw too_many_levels w
      else (let (p, counter) = h.new_packet packet w.broker.id w.broker.counter in
          let w' = record w { broker = record (w.broker) { counter = counter } } in
          (run_series
                (if ltb 0 p.qos then publish_funcs_qos packet else publish_funcs_simple packet) p
              >> pure tt)
            w')
