-- ===== src/Handlers/ClientCalls.antt =====
-- lib/client.js: `subscribe` and `unsubscribe`, by which a program subscribes on behalf of a client.
use aedes.Common.{ℕ, false, List, [], ◌∷◌, Text}
use aedes.Run.{M}
use aedes.Packet.{Cmd, Packet, Sub, blank}
use aedes.World.{World, Host}
use aedes.Handlers.Subscribe.{handle_subscribe}
use aedes.Handlers.Unsubscribe.{handle_unsubscribe}

-- The first argument: a packet with a list of items, the list, or one item.
pub data Given (A : Type 0) : Type 0 where
  packet_of : Packet → Given A
  all_of : List A → Given A
  one_of : A → Given A

-- The packet that comes of it; an object that is made here has no message id.
subscribe_packet : Given Sub → Packet
subscribe_packet (packet_of p) = p
subscribe_packet (all_of subs) = record (blank Cmd.subscribe) { subscriptions = subs }
subscribe_packet (one_of sub) = record (blank Cmd.subscribe) { subscriptions = sub ∷ [] }

unsubscribe_packet : Given Text → Packet
unsubscribe_packet (packet_of p) = p
unsubscribe_packet (all_of topics) = record (blank Cmd.unsubscribe) { unsubscriptions = topics }
unsubscribe_packet (one_of topic) = record (blank Cmd.unsubscribe) { unsubscriptions = topic ∷ [] }

module _ {O : Type 0} (h : Host O) (c : ℕ) where
  unfoldable pub client_subscribe : Given Sub → M (World O) (Unit {0})
  unfolding subscribe_packet
  client_subscribe given = handle_subscribe h c false (subscribe_packet given)

  unfoldable pub client_unsubscribe : Given Text → M (World O) (Unit {0})
  unfolding unsubscribe_packet
  client_unsubscribe given =
      let packet = unsubscribe_packet given in
      handle_unsubscribe h c packet.message_id packet.unsubscriptions
