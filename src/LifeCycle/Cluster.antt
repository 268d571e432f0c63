-- ===== src/LifeCycle/Cluster.antt =====
-- aedes.js: what the broker does with the messages of other brokers that the message queue gives it
-- (`storeBroker`, `brokerBorn` and `closeSameClients`, on packets).
pub mod Announcements
use aedes.Common.{ℕ, Option, none, some, Text, get_elem?}
use aedes.Run.{M}
use aedes.Topic.Levels.{split}
use aedes.Packet.{Packet}
use aedes.Dict.{slot}
use aedes.World.{World, Host}
use aedes.LifeCycle.{store_broker, broker_born, close_same_client, close_same_clients}

-- `packet.topic.split('/')[1]`
unfoldable pub server_of : Text → Option Text
server_of topic = get_elem? (split topic) 1

module _ {O : Type 0} (h : Host O) where
  hear_heartbeat : ℕ → Packet → World O → World O
  hear_heartbeat now packet = store_broker packet.payload now

  hear_birth : Packet → World O → World O
  hear_birth packet = broker_born packet.payload

  -- An id that is undefined is not that of this broker.
  close_same_clients_of : Option Text → Text → M (World O) (Unit {0})
  close_same_clients_of none client_id w =
      close_same_client h client_id (slot client_id w.broker.clients) w
  close_same_clients_of (some server_id) client_id w = close_same_clients h server_id client_id w

  unfoldable pub hear_new_client : Packet → M (World O) (Unit {0})
  unfolding close_same_clients_of
  hear_new_client packet = close_same_clients_of (server_of packet.topic) packet.payload
