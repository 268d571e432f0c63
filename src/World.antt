-- ===== src/World.antt =====
-- The state of the program: the Client objects of lib/client.js, the broker object of aedes.js,
-- and the code outside that is called, with what it may do between a call and its callback.
pub mod Steps
pub mod Heap
pub mod Ends
pub mod Closed
use aedes.Common.{ℕ, Bool, List, ◌∷◌, Option, none, some, Text, ◌==◌, if◌then◌else◌}
use aedes.Errors.{Error}
use aedes.Run.{Outcome}
use aedes.Dict.{Dict}
use aedes.Packet.{Packet, Sub, StoredWill}

-- The function of a subscription: which of the two `deliver` functions it ends in, and what the
-- wrappers of `addSubs` do before.
pub record Func : Type 0 where
  pub with_qos : Bool
  pub nl : Bool
  pub rap : Bool
  pub block_dollar : Bool

pub record Subscription : Type 0 where
  pub qos : ℕ
  pub func : Func
  pub rh : Option ℕ
  pub rap : Option Bool
  pub nl : Option Bool

-- The calls that the code makes of the persistence, the message queue and the hooks.
pub data Request : Type 0 where
  asks_authorize_publish asks_published : Packet → Request
  asks_incoming_get asks_incoming_store asks_incoming_del : Packet → Request
  asks_outgoing_update asks_outgoing_clear asks_outgoing_enqueue : Packet → Request
  asks_store_retained : Packet → Request
  asks_subscriptions_by_topic : Text → Request
  asks_enqueue_combi : Packet → Request
  asks_mq_emit : Packet → Request
  asks_del_will : Request
  asks_put_will : Packet → Request
  asks_stream_will asks_mq_close : Request
  asks_authorize_subscribe : Sub → Request
  asks_authorize_forward : Packet → Request
  asks_mq_on : Text → Func → Request
  asks_mq_remove : Text → Option Func → Request
  asks_add_subscriptions : List Sub → Request
  asks_remove_subscriptions : List Text → Request
  asks_clean_subscriptions asks_subscriptions_by_client asks_outgoing_stream : Request
  asks_retained : List Text → Request
  asks_setup : Request
  asks_listen : Text → Request
  asks_pre_connect asks_authenticate : Packet → Request

pub data Event : Type 0 where
  error_event : Error → Event
  publish_event ack_event : Packet → Event
  ack_without_packet : Event
  ping_event : Event
  client_event client_disconnect_event : ℕ → Event
  client_error_event connection_error_event : ℕ → Error → Event
  subscribe_event : List Sub → Event
  unsubscribe_event : List Text → Event
  connack_sent_event : Packet → Event
  client_ready_event connected_event : ℕ → Event
  keepalive_timeout_event : ℕ → Event
  closed_event : Event

-- What a task of the program does that others can see.
pub data Effect : Type 0 where
  requested : Request → Effect
  wrote : Packet → Effect
  destroyed : Effect
  keepalive_refreshed : Effect
  emitted : Event → Effect

-- The fields of a Client object. `connection` is no field of it: every Client belongs to one
-- connection, which stands for the object.
pub record Client : Type 0 where
  pub closed : Bool
  pub connecting : Bool
  pub connected : Bool
  pub connack_sent : Bool
  pub errored : Bool
  pub id : Option Text
  pub clean : Bool
  pub version : ℕ
  pub subscriptions : Dict Subscription
  pub duplicates : Dict ℕ
  pub disconnected : Bool
  pub authorized : Bool
  pub paused : Bool
  pub parsing_batch : ℕ
  pub next_id : ℕ
  -- `_drainTimer`; `_onDrainBound` is set; it is among the listeners for 'drain'; `_pendingDrains`;
  -- the callbacks that are listeners for 'drain' themselves. Callbacks are numbered.
  pub drain_timer : Bool
  pub drain_bound : Bool
  pub drain_listener : Bool
  pub pending_drains : List ℕ
  pub drain_callbacks : List ℕ
  pub will : Option Packet
  pub pending_will : Option Packet
  -- `_parser._queue`, which is null once it has been emptied
  pub queue : Option (List Packet)
  -- `_keepaliveTimer`; `_keepaliveInterval`, where `none` is -1
  pub keepalive_timer : Bool
  pub keepalive_interval : Option ℕ
  pub connect_timer : Bool
  pub conn_destroyed : Bool
  -- `close` has begun and its `finish` is still to come; then this client is registered, if any.
  pub closing : Option (Option ℕ)
  -- No field of the code: what the tasks of this client have done, the latest first.
  pub trace : List Effect

pub record Broker : Type 0 where
  pub id : Text
  pub counter : ℕ
  pub queue_limit : ℕ
  pub keepalive_limit : ℕ
  pub max_clients_id_length : ℕ
  pub max_topic_levels : ℕ
  pub drain_timeout : ℕ
  -- `clients`: the connection whose Client object is registered under an id
  pub clients : Dict ℕ
  pub connected_clients : ℕ
  -- `brokers`: when the broker of an id was heard last
  pub brokers : Dict ℕ
  pub closed : Bool
  -- What the broker's own tasks have done, the latest first.
  pub trace : List Effect

-- `O` is the state of all that is outside: the persistence, the message queue, the sockets.
pub record World (O : Type 0) : Type 0 where
  pub clients : ℕ → Client
  pub broker : Broker
  pub outside : O
  -- the number of the next drain callback
  pub next_callback : ℕ

-- What `mqtt.writeToStream` does: it throws, it takes the packet, or it takes the packet and says
-- that the buffer of the socket is full.
pub data Written : Type 0 where
  threw taken full : Written

-- The code outside. Each function stands for one call: from the state outside to what comes back.
pub record Host (O : Type 0) : Type 0 where
  -- The other tasks that run before the callback or the promise of a call comes back.
  pub meanwhile : World O → World O
  -- mqtt-packet
  pub write_to_stream : ℕ → Packet → O → Written × O
  -- what becomes of a callback that waits for the socket to drain
  pub drained : ℕ → O → Outcome (Unit {0}) × O
  -- aedes-packet: `new Packet(original, broker)` from the broker's id and counter
  pub new_packet : Packet → Text → ℕ → Packet × ℕ
  -- the hooks; `authorizePublish` may change the packet that it is given
  pub authorize_publish : Option ℕ → Packet → O → Outcome Packet × O
  pub authorize_subscribe : ℕ → Sub → O → Outcome (Option Sub) × O
  pub authorize_forward : ℕ → Packet → O → Option Packet × O
  pub pre_connect : ℕ → Packet → O → Outcome Bool × O
  pub authenticate : ℕ → Option Text → Option Text → O → Outcome Bool × O
  pub published : Packet → O → Outcome (Unit {0}) × O
  -- aedes-persistence
  pub incoming_get : Option Text → Packet → O → Outcome (Option Packet) × O
  pub incoming_store : Option Text → Packet → O → Outcome (Unit {0}) × O
  pub incoming_del : Option Text → Packet → O → Outcome (Unit {0}) × O
  pub outgoing_update : Option Text → Packet → O → Outcome (Unit {0}) × O
  pub outgoing_clear : Option Text → Packet → O → Outcome Packet × O
  pub outgoing_enqueue : Option Text → Packet → O → Outcome (Unit {0}) × O
  pub store_retained : Packet → O → Outcome (Unit {0}) × O
  pub subscriptions_by_topic : Text → O → Outcome (List Text) × O
  pub enqueue_combi : List Text → Packet → O → Outcome (Unit {0}) × O
  pub del_will : Option Text → O → Outcome (Unit {0}) × O
  pub put_will : Option Text → Packet → O → Outcome (Unit {0}) × O
  pub stream_will : Dict ℕ → O → List StoredWill × O
  pub add_subscriptions : Option Text → List Sub → O → Outcome (Unit {0}) × O
  pub remove_subscriptions : Option Text → List Text → O → Outcome (Unit {0}) × O
  pub clean_subscriptions : Option Text → O → Outcome (Unit {0}) × O
  pub subscriptions_by_client : Option Text → O → Outcome (List Sub) × O
  -- what the streams give, one packet after the other
  pub retained_stream : List Text → O → List Packet × O
  pub outgoing_stream : Option Text → O → Outcome (List Packet) × O
  -- mqemitter
  pub mq_emit : Packet → O → Outcome (Unit {0}) × O
  pub mq_on : ℕ → Text → Func → O → Outcome (Unit {0}) × O
  pub mq_remove : ℕ → Text → Option Func → O → Outcome (Unit {0}) × O
  -- `JSON.stringify` of a client id and what it subscribed to or unsubscribed from
  pub json_subscribes : Option Text → List Sub → Text
  pub json_unsubscribes : Option Text → List Text → Text
  -- `randomUUID()`
  pub random_uuid : O → Text × O
