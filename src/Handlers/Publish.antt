-- ===== src/Handlers/Publish.antt =====
-- lib/handlers/publish.js: PUBLISH.
pub mod Cases
pub mod Once
pub mod Exact
pub mod Guards
pub mod Ending
use aedes.Common.{ℕ, List, length, [], ◌∷◌, some, any, ltb, ◌==◌, if◌then◌else◌}
use aedes.Errors.{empty_publish_topic, hash_in_publish, plus_in_publish, too_many_levels}
use aedes.Run.{M, pure, throw, never, ◌>>◌, settle, run_series}
use aedes.Topic.{topic_level_count, plus, hash}
use aedes.Packet.{Cmd, Packet, blank}
use aedes.World.{World, Host, asks_authorize_publish, asks_incoming_get, asks_incoming_store}
use aedes.World.Steps.{request}
use aedes.Write.{write}
use aedes.Broker.Publishing.{publish}

-- `new PubAck(packet)`, `new PubRec(packet)`
abbrev pub pub_ack : Packet → Packet
pub_ack packet = record (blank Cmd.puback) { message_id = packet.message_id }

abbrev pub pub_rec : Packet → Packet
pub_rec packet = record (blank Cmd.pubrec) { message_id = packet.message_id }

module _ {O : Type 0} (h : Host O) (c : ℕ) where
  unfoldable pub authorize_publish : Packet → M (World O) Packet
  authorize_publish packet =
      request h (some c) (asks_authorize_publish packet) (h.authorize_publish (some c) packet)

  -- The packet of QoS 2 is not in the store: it is stored, then published, then acknowledged.
  pub publish_new : Packet → M (World O) (Unit {0})
  publish_new packet w =
      (do
        request h (some c) (asks_incoming_store packet) (h.incoming_store (w.clients c).id packet)
        publish h (some c) packet
        write h c (pub_rec packet))
        w

  pub publish_qos2 : Packet → M (World O) (Unit {0})
  unfolding publish_new
  publish_qos2 packet w =
      settle
        (request h (some c) (asks_incoming_get packet) (h.incoming_get (w.clients c).id packet))
        (λ _. write h c (pub_rec packet)) (λ _. publish_new packet) w

  publish_qos1 : Packet → M (World O) (Unit {0})
  publish_qos1 packet = do write h c (pub_ack packet); publish h (some c) packet

  -- With any other `qos` the callback is never called.
  pub enqueue_publish : Packet → M (World O) Packet
  unfolding publish_qos2 publish_qos1
  enqueue_publish packet =
      if packet.qos == 2
      then publish_qos2 packet >> pure packet
      else if packet.qos == 1
      then publish_qos1 packet >> pure packet
      else if packet.qos == 0
      then publish h (some c) packet >> pure packet
      else never

  unfoldable pub publish_actions : List (Packet → M (World O) Packet)
  unfolding authorize_publish enqueue_publish
  publish_actions = authorize_publish ∷ enqueue_publish ∷ []

  unfoldable pub handle_publish : Packet → M (World O) (Unit {0})
  unfolding publish_actions
  handle_publish packet w =
      if length packet.topic == 0
      then throw empty_publish_topic w
      else if any (λ x. x == hash) packet.topic
      then throw hash_in_publish w
      else if any (λ x. x == plus) packet.topic
      then throw plus_in_publish w
      else if ltb w.broker.max_topic_levels (topic_level_count (some packet.topic))
      then throw too_many_levels w
      else (run_series publish_actions packet >> pure tt) w
