-- ===== src/LifeCycle.antt =====
-- aedes.js: the options of a broker, its heartbeat, the wills of brokers that are gone, clients that
-- connect to another broker of the cluster, and `close`.
pub mod Brokers
pub mod Hooks
pub mod Startup
pub mod Cluster
pub mod Closing
pub mod Reserved
mod Examples
use aedes.Common.{
  ℕ, ◌+◌, ◌*◌, min, max, Bool, true, false, ◌&&◌, List, [], ◌∷◌, ◌++◌, Option, none, some, Text,
  codes, text_eq, not, ltb, leb, ◌==◌, if◌then◌else◌, map,
}
use aedes.Errors.{Error}
use aedes.Run.{Outcome, done, fail, silent, M, pure, never, ◌>>◌, ◌>>=◌, both}
use aedes.Dict.{Dict, Slot, absent, builtin, own, slot, put, remove}
use aedes.Flow.{batch}
use aedes.Packet.{Cmd, Packet, StoredWill, blank}
use aedes.World.{
  Client, Broker, World, Host, asks_authorize_publish, asks_del_will, requested, asks_stream_will,
  asks_mq_close, error_event, closed_event,
}
use aedes.World.Steps.{update, note, emit, request}
use aedes.Broker.Publishing.{publish, sys_prefix}
use aedes.Broker.Registry.{close, delete_client}
use aedes.Handlers.Unsubscribe.{end_close}

-- The options that the model reads. (They are taken to be natural numbers, as documented.)
pub record Options : Type 0 where
  pub id : Option Text
  pub queue_limit : ℕ
  pub keepalive_limit : ℕ
  pub max_clients_id_length : ℕ
  pub max_topic_levels : ℕ
  pub drain_timeout : ℕ

abbrev pub max_topic_levels_ceiling : ℕ
max_topic_levels_ceiling = 100

-- `opts.id || randomUUID()`
abbrev chosen_broker_id : Option Text → Text → Text
chosen_broker_id (some (c ∷ cs)) uuid = c ∷ cs
chosen_broker_id _ uuid = uuid

-- The constructor, and the assignments at the beginning of `listen`.
unfoldable pub new_broker : Options → Text → Broker
new_broker opts uuid = record {
  id = chosen_broker_id opts.id uuid;
  counter = 0;
  queue_limit = opts.queue_limit;
  keepalive_limit = opts.keepalive_limit;
  max_clients_id_length = opts.max_clients_id_length;
  max_topic_levels = min (max opts.max_topic_levels 1) max_topic_levels_ceiling;
  drain_timeout = opts.drain_timeout;
  clients = [];
  connected_clients = 0;
  brokers = [];
  closed = false;
  trace = [];
}

-- `that.brokers[will.brokerId] !== undefined && … >= Date.now()`; the sum with a member of
-- `Object.prototype` is not a number, and no comparison with it holds.
abbrev pub was_heard : ℕ → ℕ → Slot ℕ → Bool
was_heard interval now absent = false
was_heard interval now builtin = false
was_heard interval now (own last) = leb now (last + 3 * interval)

-- The brokers of which nothing was heard for three intervals are deleted.
unfoldable pub delete_old_brokers : ℕ → ℕ → Dict ℕ → Dict ℕ
delete_old_brokers interval now [] = []
delete_old_brokers interval now ((id, last) ∷ brokers) =
    let rest = delete_old_brokers interval now brokers in
    if ltb (last + 3 * interval) now then rest else (id, last) ∷ rest

abbrev owner : Slot ℕ → Option ℕ
owner absent = none
owner builtin = none
owner (own c) = some c

-- `brokerBorn`: the counters of the broker are reset for all registered clients.
forget_duplicates : Text → List (Text × ℕ) → (ℕ → Client) → ℕ → Client
forget_duplicates id [] heap = heap
forget_duplicates id ((_, c) ∷ clients) heap =
    forget_duplicates id clients
      (update heap c (record (heap c) { duplicates = remove id (heap c).duplicates }))

unfoldable pub broker_born : {O : Type 0} → Text → World O → World O
unfolding forget_duplicates
broker_born id w =
    if text_eq id w.broker.id
    then w
    else record w { clients = forget_duplicates id w.broker.clients w.clients }

-- `storeBroker`
pub store_broker : {O : Type 0} → Text → ℕ → World O → World O
store_broker id now w = record w {
  broker = record (w.broker) { brokers = put id now w.broker.brokers };
}

module _ {O : Type 0} (h : Host O) where
  -- The two messages that tell other brokers that this one is alive.
  pub announce_broker : Text → World O → World O
  announce_broker suffix w =
      let packet = record (blank Cmd.publish) {
        topic = sys_prefix ++ (w.broker.id ++ suffix);
        payload = w.broker.id;
      } in
      (publish h none packet w).1

  pub birth : World O → World O
  unfolding announce_broker
  birth w = announce_broker (codes "/birth") w

  pub heartbeat : World O → World O
  unfolding announce_broker
  heartbeat w = announce_broker (codes "/heartbeat") w

  -- `checkAndPublish(will)`. (The client that the hook is given for an id which is a member of
  -- `Object.prototype` is written as none.)
  unfoldable pub check_and_publish : ℕ → ℕ → StoredWill → M (World O) (Unit {0})
  check_and_publish interval now will w =
      if was_heard interval now (slot will.broker_id w.broker.brokers)
      then pure tt w
      else (do
        will' ←
            request h none (asks_authorize_publish will.packet)
              (h.authorize_publish (owner (slot will.client_id w.broker.clients)) will.packet)
        publish h none will'
        request h none asks_del_will (h.del_will (some will.client_id)))
          w

  -- `Promise.all(promises)`: all of them run, and the first error is that of the whole.
  run_all : List (M (World O) (Unit {0})) → M (World O) (Unit {0})
  run_all [] w = pure tt w
  run_all (m ∷ ms) w = let (r, w1) = m w in let (rs, w2) = run_all ms w1 in (both r rs, w2)

  run_batches : List (List (M (World O) (Unit {0}))) → M (World O) (Unit {0})
  unfolding run_all
  run_batches [] w = pure tt w
  run_batches (ms ∷ rest) w = (run_all ms >> run_batches rest) w

  report : Outcome (Unit {0}) × World O → World O
  report (done _, w) = w
  report (fail e, w) = emit none (error_event e) w
  report (silent, w) = w

  -- `_clearWills`, sixteen wills at a time, and what is done with its error. The time is read once.
  unfoldable pub clear_wills : ℕ → ℕ → World O → World O
  unfolding report run_batches check_and_publish delete_old_brokers
  clear_wills interval now w =
      let brokers = delete_old_brokers interval now w.broker.brokers in
      let w1 =
        note none (requested asks_stream_will)
          (record w { broker = record (w.broker) { brokers = brokers } }) in
      let (wills, o) = h.stream_will brokers w1.outside in
      report (
        run_batches (batch (check_and_publish interval now) 16 wills)
          (h.meanwhile (record w1 { outside = o })))

  -- `closeSameClients`, on a client id that another broker has registered.
  unfoldable pub close_same_client : Text → Slot ℕ → M (World O) (Unit {0})
  unfolding close delete_client
  close_same_client id absent w = pure tt w
  close_same_client id builtin w = never w
  close_same_client id (own c) w =
      if (w.clients c).closed
      then pure tt (delete_client id w)
      else end_close h c (h.meanwhile (close h c none w))

  unfoldable pub close_same_clients : Text → Text → M (World O) (Unit {0})
  unfolding close_same_client slot
  close_same_clients server_id client_id w =
      if text_eq server_id w.broker.id
      then pure tt w
      else close_same_client client_id (slot client_id w.broker.clients) w

  -- `closeClient` of each: what is still to end are the closes of those that were open.
  begin_closing : List (Text × ℕ) → World O → List ℕ × World O
  unfolding close
  begin_closing [] w = ([], w)
  begin_closing ((_, c) ∷ clients) w =
      let (begun, w1) = begin_closing clients (close h c none w) in
      (if (w.clients c).closed then begun else c ∷ begun, w1)

  -- They end one after the other; if one does not, their promises are never all resolved.
  end_closing : List ℕ → M (World O) (Unit {0})
  unfolding end_close
  end_closing [] w = (done tt, w)
  end_closing (c ∷ clients) w =
      let (r, w1) = end_close h c w in let (rs, w2) = end_closing clients w1 in (both r rs, w2)

  -- What follows `Promise.all(promises)`. (No callback of a `close` has an error.)
  finish_broker : Outcome (Unit {0}) × World O → World O
  finish_broker (silent, w) = w
  finish_broker (fail e, w) = note none (requested asks_mq_close) (emit none closed_event w)
  finish_broker (done _, w) = note none (requested asks_mq_close) (emit none closed_event w)

  -- `close`: every `close` of a client is begun, and then they end.
  unfoldable pub close_broker : World O → World O
  unfolding begin_closing end_closing finish_broker
  close_broker w =
      if w.broker.closed
      then w
      else (let (begun, w1) =
            begin_closing w.broker.clients
              (record w { broker = record (w.broker) { closed = true } }) in
          finish_broker (end_closing begun (h.meanwhile w1)))
