-- ===== src/Handlers/Unsubscribe.antt =====
-- lib/handlers/unsubscribe.js: UNSUBSCRIBE, and the subscriptions that `close` gives up. The topics
-- are worked on one after the other: one of the orders in which their callbacks may come.
pub mod Removal
pub mod Agreement
pub mod Ending
pub mod Closed
pub mod GivenUp
mod Examples
use aedes.Common.{
  ℕ, Bool, true, not, ◌&&◌, ◌||◌, List, [], ◌∷◌, ◌++◌, Option, none, some, Text, codes, length, ltb,
  if◌then◌else◌,
}
use aedes.Errors.{Error, unsubscribe_verb}
use aedes.Run.{Outcome, done, fail, silent, M, pure, throw, ◌>>◌, both}
use aedes.Dict.{Slot, absent, builtin, own, slot, remove, keys}
use aedes.Topic.{validate_topic}
use aedes.Packet.{Cmd, Packet, blank}
use aedes.World.{World, Host, Subscription, unsubscribe_event, asks_remove_subscriptions}
use aedes.World.Steps.{set_client, emit, request}
use aedes.Write.{write}
use aedes.Broker.Publishing.{publish, sys_prefix}
use aedes.Broker.Registry.{close, finish_close}
use aedes.Broker.Failure.{emit_error}
use aedes.Handlers.Subscribe.{mq_unsubscribe}

-- `new UnSubAck(packet)`
abbrev pub unsub_ack : Option ℕ → Packet
unsub_ack message_id = record (blank Cmd.unsuback) { message_id = message_id }

-- The loop at the beginning of `handleUnsubscribe`: the first error.
unfoldable pub first_error : ℕ → List Text → Option Error
unfolding validate_topic
first_error max_levels [] = none
first_error max_levels (topic ∷ topics) =
    let rest = first_error max_levels topics in
    elim (validate_topic (some topic) unsubscribe_verb max_levels) [ some e ↦ some e | none ↦ rest ]

module _ {O : Type 0} (h : Host O) (c : ℕ) where
  delete_subscription : Text → World O → World O
  delete_subscription topic w =
      set_client c
        (record (w.clients c) { subscriptions = remove topic (w.clients c).subscriptions }) w

  pub unsubscribe_slot : Text → Slot Subscription → M (World O) (Unit {0})
  unfolding delete_subscription mq_unsubscribe
  unsubscribe_slot topic absent = pure tt
  unsubscribe_slot topic builtin =
      mq_unsubscribe h c topic none >> λ w. pure tt (delete_subscription topic w)
  unsubscribe_slot topic (own s) =
      mq_unsubscribe h c topic (some s.func) >> λ w. pure tt (delete_subscription topic w)

  unfoldable pub do_unsubscribe : Text → M (World O) (Unit {0})
  unfolding unsubscribe_slot slot
  do_unsubscribe topic w = unsubscribe_slot topic (slot topic (w.clients c).subscriptions) w

  unfoldable pub unsubscribe_all : List Text → M (World O) (Unit {0})
  unfolding do_unsubscribe
  unsubscribe_all [] w = (done tt, w)
  unsubscribe_all (topic ∷ topics) w =
      let (r, w1) = do_unsubscribe topic w in
      let (rs, w2) = unsubscribe_all topics w1 in (both r rs, w2)

  acknowledge_unsubscribe : Option ℕ → M (World O) (Unit {0})
  acknowledge_unsubscribe none = pure tt
  acknowledge_unsubscribe (some id) = write h c (unsub_ack (some id))

  announce_unsubscribes : List Text → World O → World O
  announce_unsubscribes topics w =
      let news = record (blank Cmd.publish) {
        topic = sys_prefix ++ (w.broker.id ++ codes "/new/unsubscribes");
        payload = h.json_unsubscribes (w.clients c).id topics;
      } in
      (publish h none news (emit none (unsubscribe_event topics) w)).1

  -- What follows the acknowledgement runs while that is on its way; here it comes after.
  complete_unsubscribe :
      Option ℕ → List Text → Outcome (Unit {0}) × World O → Outcome (Unit {0}) × World O
  unfolding acknowledge_unsubscribe announce_unsubscribes
  complete_unsubscribe message_id topics (silent, w) = (silent, w)
  complete_unsubscribe message_id topics (fail e, w) = (fail e, emit_error h c e w)
  complete_unsubscribe message_id topics (done tt, w) =
      let (r, w1) = acknowledge_unsubscribe message_id w in
      (
        r,
        if (not (w1.clients c).closed || (w1.clients c).clean) && ltb 0 (length topics)
            then announce_unsubscribes topics w1
            else w1,
      )

  actual_unsubscribe : Option ℕ → List Text → M (World O) (Unit {0})
  unfolding complete_unsubscribe unsubscribe_all
  actual_unsubscribe message_id topics w =
      complete_unsubscribe message_id topics (unsubscribe_all topics w)

  unsubscribe_valid : Option ℕ → List Text → M (World O) (Unit {0})
  unfolding actual_unsubscribe
  unsubscribe_valid none topics w = actual_unsubscribe none topics w
  unsubscribe_valid (some id) topics w =
      if (w.clients c).clean
      then actual_unsubscribe (some id) topics w
      else (request h (some c) (asks_remove_subscriptions topics)
              (h.remove_subscriptions (w.clients c).id topics)
            >> actual_unsubscribe (some id) topics)
          w

  -- `handleUnsubscribe(client, packet, finish)`, of the message id and the topics of the packet.
  unfoldable pub handle_unsubscribe : Option ℕ → List Text → M (World O) (Unit {0})
  unfolding unsubscribe_valid first_error
  handle_unsubscribe message_id topics w = elim (first_error w.broker.max_topic_levels topics) [
    | some e ↦ throw e w
    | none ↦ unsubscribe_valid message_id topics w
  ]

  end_after : Outcome (Unit {0}) × World O → Outcome (Unit {0}) × World O
  end_after (silent, w) = (silent, w)
  end_after (fail e, w) = (done tt, finish_close h c w)
  end_after (done tt, w) = (done tt, finish_close h c w)

  -- The second half of `close`: `handleUnsubscribe(this, { unsubscriptions: … }, finish)`. `finish`
  -- is called with an error too, and calls the callback of `close`. (It is called before the event 'unsubscribe'; here it comes after.)
  unfoldable pub end_close : M (World O) (Unit {0})
  unfolding end_after handle_unsubscribe
  end_close w = end_after (handle_unsubscribe none (keys (w.clients c).subscriptions) w)

  -- `close`, with nothing between its two halves.
  unfoldable pub close_now : M (World O) (Unit {0})
  unfolding end_close close
  close_now w = if (w.clients c).closed then pure tt w else end_close (close h c none w)
