-- ===== src/Sample.antt =====
-- A small world for tests: one broker, its clients, and code outside that answers every call, with
-- a store of incoming packets that remembers their message ids.
use aedes.Common.{
  ℕ, ◌+◌, ◌==◌, Bool, true, false, ◌||◌, List, [], ◌∷◌, Option, none, some, codes, if◌then◌else◌,
}
use aedes.Errors.{external}
use aedes.Run.{Outcome, done, fail}
use aedes.Packet.{Cmd, Packet, blank}
use aedes.World.{Client, Broker, World, Host, taken}
use aedes.Session.Sample.{new_client}

-- The message ids in the store.
abbrev pub Store : Type 0
Store = List (Option ℕ)

abbrev same_id : Option ℕ → Option ℕ → Bool
same_id none none = true
same_id none (some _) = false
same_id (some _) none = false
same_id (some a) (some b) = a == b

abbrev pub has : Option ℕ → Store → Bool
has m [] = false
has m (n ∷ ns) = same_id m n || has m ns

abbrev pub drop_id : Option ℕ → Store → Store
drop_id m [] = []
drop_id m (n ∷ ns) = if same_id m n then drop_id m ns else n ∷ drop_id m ns

abbrev pub get_incoming : Packet → Store → Outcome (Option Packet)
get_incoming p o = if has p.message_id o then done (some p) else fail (external 0)

abbrev pub sample_host : Host Store
sample_host = record {
  meanwhile = λ w. w;
  write_to_stream = λ c p o. (taken, o);
  drained = λ c o. (done tt, o);
  new_packet = λ p id n. (record p { broker_id = some id; broker_counter = n + 1 }, n + 1);
  authorize_publish = λ c p o. (done p, o);
  authorize_subscribe = λ c sub o. (done (some sub), o);
  authorize_forward = λ c p o. (some p, o);
  pre_connect = λ c p o. (done true, o);
  authenticate = λ c name password o. (done true, o);
  published = λ p o. (done tt, o);
  incoming_get = λ id p o. (get_incoming p o, o);
  incoming_store = λ id p o. (done tt, p.message_id ∷ o);
  incoming_del = λ id p o. (done tt, drop_id p.message_id o);
  outgoing_update = λ id p o. (done tt, o);
  outgoing_clear = λ id p o. (done p, o);
  outgoing_enqueue = λ id p o. (done tt, o);
  store_retained = λ p o. (done tt, o);
  subscriptions_by_topic = λ t o. (done [], o);
  enqueue_combi = λ ts p o. (done tt, o);
  del_will = λ id o. (done tt, o);
  put_will = λ id p o. (done tt, o);
  stream_will = λ brokers o. ([], o);
  add_subscriptions = λ id subs o. (done tt, o);
  remove_subscriptions = λ id topics o. (done tt, o);
  clean_subscriptions = λ id o. (done tt, o);
  subscriptions_by_client = λ id o. (done [], o);
  retained_stream = λ topics o. ([], o);
  outgoing_stream = λ id o. (done [], o);
  mq_emit = λ p o. (done tt, o);
  mq_on = λ c topic func o. (done tt, o);
  mq_remove = λ c topic func o. (done tt, o);
  json_subscribes = λ id subs. [];
  json_unsubscribes = λ id topics. [];
  random_uuid = λ o. (codes "u", o);
}

abbrev pub sample_broker : Broker
sample_broker = record {
  id = codes "b";
  counter = 0;
  queue_limit = 42;
  keepalive_limit = 0;
  max_clients_id_length = 23;
  max_topic_levels = 100;
  drain_timeout = 60000;
  clients = [];
  connected_clients = 0;
  brokers = [];
  closed = false;
  trace = [];
}

abbrev pub connected_client : Client
connected_client = record (new_client 7) {
  connected = true;
  connack_sent = true;
  id = some (codes "c");
}

abbrev pub connecting_client : Client
connecting_client = record (new_client 7) { connecting = true }

-- A world in which every connection has this client.
abbrev pub world_of : Client → World Store
world_of client = record {
  clients = λ c. client;
  broker = sample_broker;
  outside = [];
  next_callback = 0;
}

-- A PUBLISH to the topic "a/b" with the message id 5.
abbrev pub sample_publish : ℕ → Packet
sample_publish qos = record (blank Cmd.publish) {
  topic = codes "a/b";
  qos = qos;
  message_id = some 5;
}
