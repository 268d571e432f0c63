-- ===== src/Broker/Registry.antt =====
-- aedes.js: which client is registered under an id (`registerClient`, `_finishRegisterClient`,
-- `unregisterClient`, `deleteClient`), and `close` of lib/client.js, which they call and which
-- calls them.
pub mod Finishing
pub mod Closed
pub mod Takeover
mod Examples
use aedes.Common.{
  ℕ, ◌+◌, ◌-◌, Bool, true, false, not, ◌&&◌, List, [], ◌∷◌, ◌++◌, Option, none, some, Text, codes,
  if◌then◌else◌,
}
use aedes.Run.{Outcome, M, settle, pure}
use aedes.Dict.{Slot, absent, builtin, own, slot, put, remove}
use aedes.Packet.{Cmd, Packet, blank}
use aedes.World.{
  Client, World, Host, client_event, client_disconnect_event, asks_authorize_publish, asks_del_will,
  destroyed,
}
use aedes.World.Steps.{set_client, note, emit, request}
use aedes.Session.Drain.{flush_drains, finish_drains}
use aedes.Broker.Publishing.{publish, sys_prefix}

-- A property name: `null` is the name "null".
abbrev pub key_of : Option Text → Text
key_of none = codes "null"
key_of (some id) = id

abbrev is_truthy : Slot ℕ → Bool
is_truthy absent = false
is_truthy builtin = true
is_truthy (own _) = true

-- What a registration comes to: it is done or under way, or it throws, since a member of
-- `Object.prototype` has no method `close`.
pub data Registration (O : Type 0) : Type 0 where
  goes_on : World O → Registration O
  throws : Registration O

unfoldable pub delete_client : {O : Type 0} → Text → World O → World O
delete_client id w = record w {
  broker = record (w.broker) {
    connected_clients = w.broker.connected_clients - 1;
    clients = remove id w.broker.clients;
  };
}

-- `close`, up to the call of `handleUnsubscribe`, which calls `finish` later. The callbacks that
-- waited for the socket are called by `flush_drains`.
unfoldable pub begin_close : Client → Option ℕ → Client
begin_close client done =
    let flushed = (flush_drains client).1 in
    record flushed {
      closed = true;
      queue = none;
      keepalive_interval = if client.keepalive_timer then none else client.keepalive_interval;
      keepalive_timer = false;
      connect_timer = false;
      closing = some done;
    }

-- What `finish` leaves of the client object.
end_client : Client → Client
end_client client =
    let drained = (finish_drains client).1 in
    record drained {
      will = none;
      pending_will = none;
      connected = false;
      connecting = false;
      conn_destroyed = true;
      closing = none;
    }

-- The packet by which a broker tells of a client.
abbrev pub announcement : Text → Text → Option Text → Packet
announcement suffix broker_id id = record (blank Cmd.publish) {
  topic = sys_prefix ++ (broker_id ++ suffix);
  payload = key_of id;
}

module _ {O : Type 0} (h : Host O) where
  -- `this.publish({ topic: …, payload: … }, noop)`. A client has its id before it is registered, so
  -- that `Buffer.from(client.id)` is given no null.
  announce : Text → Option Text → World O → World O
  announce suffix id w = (publish h none (announcement suffix w.broker.id id) w).1

  unregister_client : ℕ → World O → World O
  unfolding announce delete_client
  unregister_client c w =
      let id = (w.clients c).id in
      announce (codes "/disconnect/clients") id
        (emit none (client_disconnect_event c) (delete_client (key_of id) w))

  pub finish_register_client : ℕ → World O → World O
  unfolding announce
  finish_register_client c w =
      let id = (w.clients c).id in
      let w' = record w {
        broker = record (w.broker) {
          connected_clients = w.broker.connected_clients + 1;
          clients = put (key_of id) c w.broker.clients;
        };
      } in
      announce (codes "/new/clients") id (emit none (client_event c) w')

  -- The callback of `close`: nothing, or `closeClient`.
  close_done : Option ℕ → World O → World O
  unfolding finish_register_client
  close_done none w = w
  close_done (some c) w = finish_register_client c w

  unfoldable pub close : ℕ → Option ℕ → World O → World O
  unfolding close_done begin_close flush_drains
  close c done w =
      if (w.clients c).closed
      then close_done done w
      else set_client c (begin_close (w.clients c) done) w

  pub delete_will : ℕ → M (World O) (Unit {0})
  delete_will c w = request h (some c) asks_del_will (h.del_will (w.clients c).id) w

  -- The will is published unless the client sent DISCONNECT or the hook forbids it, and deleted.
  -- (Its callbacks come while the rest of `finish` runs or after it; here they come before.)
  unfoldable pub end_will : ℕ → Option Packet → World O → World O
  unfolding delete_will
  end_will c none w = w
  end_will c (some will) w =
      if (w.clients c).disconnected
      then (delete_will c w).1
      else (settle
          (request h (some c) (asks_authorize_publish will) (h.authorize_publish (some c) will))
          (λ will'. settle (publish h (some c) will') (λ _. delete_will c) (λ _. delete_will c))
          (λ _. delete_will c) w).1

  -- `if (this.broker.clients[this.id] && this._authorized) this.broker.unregisterClient(this)`
  end_registration : ℕ → World O → World O
  unfolding unregister_client
  end_registration c w =
      if is_truthy (slot (key_of (w.clients c).id) w.broker.clients) && (w.clients c).authorized
      then unregister_client c w
      else w

  -- `finish`, after the will. (Nothing waits for the publication that `unregisterClient` starts; here
  -- it comes to its end before the callback of `close` is called.)
  finish_without_will : ℕ → Option ℕ → World O → World O
  unfolding end_client end_registration close_done finish_drains
  finish_without_will c done w =
      let w' = end_registration c (set_client c (end_client (w.clients c)) w) in
      close_done done (note (some c) destroyed w')

  finish_close_of : ℕ → Option (Option ℕ) → World O → World O
  unfolding end_will finish_without_will
  finish_close_of c none w = w
  finish_close_of c (some done) w = finish_without_will c done (end_will c (w.clients c).will w)

  -- `finish`, once the subscriptions are gone.
  unfoldable pub finish_close : ℕ → World O → World O
  unfolding finish_close_of
  finish_close c w = finish_close_of c (w.clients c).closing w

  register_slot : ℕ → Slot ℕ → World O → Registration O
  unfolding finish_register_client close
  register_slot c absent w = goes_on (finish_register_client c w)
  register_slot c builtin w = throws
  register_slot c (own old) w = goes_on (close old (some c) w)

  unfoldable pub register_client : ℕ → World O → Registration O
  unfolding register_slot
  register_client c w = register_slot c (slot (key_of (w.clients c).id) w.broker.clients) w
