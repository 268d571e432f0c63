-- ===== src/Packet.antt =====
-- MQTT packets as the code handles them: one record with the fields that lib/ and aedes.js read
-- or write. A field that a packet does not have holds the value of `blank`.
use aedes.Common.{ℕ, Bool, false, List, [], Option, none, Text}

pub data Cmd : Type 0 where
  connect connack publish puback pubrec pubrel pubcomp : Cmd
  subscribe suback unsubscribe unsuback pingreq pingresp disconnect : Cmd
  -- any other command
  other : Cmd

-- An element of `subscriptions` of a SUBSCRIBE, or of what the persistence keeps.
pub record Sub : Type 0 where
  pub topic : Text
  pub qos : ℕ
  pub rh : Option ℕ
  pub rap : Option Bool
  pub nl : Option Bool

-- `will` of a CONNECT.
pub record Will : Type 0 where
  pub topic : Text
  pub payload : Text
  pub qos : ℕ
  pub retain : Bool

pub record Packet : Type 0 where
  pub cmd : Cmd
  pub topic : Text
  pub payload : Text
  pub qos : ℕ
  pub retain : Bool
  pub message_id : Option ℕ
  -- set by aedes-packet, and by the broker
  pub broker_id : Option Text
  pub broker_counter : ℕ
  pub client_id : Option Text
  -- set on the way to a subscriber
  pub nl : Bool
  -- CONNACK, SUBACK
  pub return_code : ℕ
  pub session_present : Bool
  pub granted : List ℕ
  -- SUBSCRIBE, UNSUBSCRIBE
  pub subscriptions : List Sub
  pub unsubscriptions : List Text
  -- CONNECT, whose `clientId` is `client_id`
  pub protocol_version : ℕ
  pub clean : Bool
  pub keepalive : ℕ
  pub username : Option Text
  pub password : Option Text
  pub will : Option Will

abbrev pub blank : Cmd → Packet
blank cmd = record {
  cmd = cmd;
  topic = [];
  payload = [];
  qos = 0;
  retain = false;
  message_id = none;
  broker_id = none;
  broker_counter = 0;
  client_id = none;
  nl = false;
  return_code = 0;
  session_present = false;
  granted = [];
  subscriptions = [];
  unsubscriptions = [];
  protocol_version = 0;
  clean = false;
  keepalive = 0;
  username = none;
  password = none;
  will = none;
}

-- A will as the persistence streams it: the packet, of which broker and which client.
pub record StoredWill : Type 0 where
  pub broker_id : Text
  pub client_id : Text
  pub packet : Packet

-- A will as `publish` and the persistence take it.
abbrev pub will_packet : Will → Packet
will_packet will = record (blank Cmd.publish) {
  topic = will.topic;
  payload = will.payload;
  qos = will.qos;
  retain = will.retain;
}
