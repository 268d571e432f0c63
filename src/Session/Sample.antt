-- ===== src/Session/Sample.antt =====
-- A Client object as the constructor of lib/client.js makes it.
use aedes.Common.{ℕ, true, false, [], none, some}
use aedes.World.{Client}

-- The argument is `Math.ceil(Math.random() * 65535)`.
abbrev pub new_client : ℕ → Client
new_client random_id = record {
  closed = false;
  connecting = false;
  connected = false;
  connack_sent = false;
  errored = false;
  id = none;
  clean = true;
  version = 0;
  subscriptions = [];
  duplicates = [];
  disconnected = false;
  authorized = false;
  paused = false;
  parsing_batch = 1;
  next_id = random_id;
  drain_timer = false;
  drain_bound = false;
  drain_listener = false;
  pending_drains = [];
  drain_callbacks = [];
  will = none;
  pending_will = none;
  queue = some [];
  keepalive_timer = false;
  keepalive_interval = none;
  connect_timer = true;
  conn_destroyed = false;
  closing = none;
  trace = [];
}
