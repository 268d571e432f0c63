-- ===== src/Handlers/Connect.antt =====
-- lib/handlers/connect.js: CONNECT.
pub mod Acceptance
pub mod Session
pub mod Ready
pub mod Actions
pub mod Registering
pub mod Series
pub mod Success
mod Examples
use aedes.Common.{
  ℕ, ◌+◌, ◌*◌, Bool, true, false, not, ◌&&◌, ◌||◌, List, [], ◌∷◌, ◌++◌, Option, none, some, Text,
  codes, length, ltb, leb, ◌==◌, if◌then◌else◌,
}
use aedes.Errors.{Error, refused, external}
use aedes.Run.{Outcome, done, fail, silent, M, pure, throw, never, ◌>>◌, ◌>>=◌, settle, run_series}
use aedes.Packet.{Cmd, Packet, Sub, Will, blank, will_packet}
use aedes.World.{
  World, Host, asks_pre_connect, asks_authenticate, asks_subscriptions_by_client,
  asks_clean_subscriptions, asks_del_will, asks_put_will, asks_outgoing_stream,
  asks_outgoing_update, asks_outgoing_clear, connack_sent_event, client_ready_event,
  connected_event,
}
use aedes.World.Steps.{set_client, emit, request}
use aedes.Session.MessageIds.{assign_id}
use aedes.Write.{write}
use aedes.Broker.Registry.{Registration, goes_on, throws, register_client}
use aedes.Broker.Failure.{emit_error}
use aedes.Forward.{authorize_forward, make_packet}
use aedes.Handlers.Subscribe.{handle_subscribe}
use aedes.Handlers.Unsubscribe.{close_now}
use aedes.Handlers.Offline.{clear_queue}

-- `arg` of the series: the fields of the CONNACK, and the subscriptions of the session.
pub record ConnectArg : Type 0 where
  pub return_code : ℕ
  pub session_present : Bool
  pub subs : Option (List Sub)

-- `new Connack(arg)`
abbrev pub connack : ℕ → Bool → Packet
connack return_code session_present = record (blank Cmd.connack) {
  return_code = return_code;
  session_present = session_present;
}

abbrev id_length : Option Text → ℕ
id_length none = 0
id_length (some id) = length id

-- The return code of `init`: the last test that holds decides.
unfoldable pub return_code_of : ℕ → ℕ → Packet → ℕ
return_code_of max_id_length keepalive_limit packet =
    let version = packet.protocol_version in
    if ltb 0 keepalive_limit && (packet.keepalive == 0 || ltb keepalive_limit packet.keepalive)
    then 6
    else if version == 3 && ltb max_id_length (id_length packet.client_id)
    then 2
    else if ltb version 3 || ltb 4 version
    then 1
    else 0

-- `errCode && (errCode >= 2 && errCode <= 5)`, or else 5.
unfoldable pub refusal_code : Error → ℕ
refusal_code (external code) = if leb 2 code && leb code 5 then code else 5
refusal_code _ = 5

abbrev some_if_any : List Sub → Option (List Sub)
some_if_any [] = none
some_if_any (sub ∷ subs) = some (sub ∷ subs)

module _ {O : Type 0} (h : Host O) (c : ℕ) where
  -- `doConnack(arg, done)`
  unfoldable pub do_connack : ℕ → Bool → M (World O) (Unit {0})
  do_connack return_code session_present w =
      let ack = connack return_code session_present in
      (write h c ack >> λ w'.
      let w'' = emit none (connack_sent_event ack) w' in
      pure tt (set_client c (record (w''.clients c) { connack_sent = true }) w''))
        w

  -- A refusal: the CONNACK, and then `close`, written or not, and when that ends the series ends with
  -- the error.
  close_refused : ℕ → M (World O) ConnectArg
  close_refused code = close_now h c >> throw (refused code)

  refuse : ℕ → ConnectArg → M (World O) ConnectArg
  unfolding do_connack close_refused
  refuse code arg =
      settle (do_connack code arg.session_present) (λ _. close_refused code)
        (λ _. close_refused code)

  -- The callback `negate` of `authenticate`.
  authenticated : ConnectArg → Bool → M (World O) ConnectArg
  unfolding refuse
  authenticated arg successful w =
      if (w.clients c).closed || w.broker.closed
      then never w
      else if successful
      then pure arg (set_client c (record (w.clients c) { authorized = true }) w)
      else refuse 5 arg w

  -- The same callback with an error, which keeps its message and gets the code.
  not_authenticated : ConnectArg → Error → M (World O) ConnectArg
  unfolding refuse refusal_code
  not_authenticated arg e w =
      if (w.clients c).closed || w.broker.closed then never w else refuse (refusal_code e) arg w

  pub authenticate : Packet → ConnectArg → M (World O) ConnectArg
  unfolding authenticated not_authenticated
  authenticate packet arg w =
      settle
        (request h (some c) (asks_authenticate packet)
          (h.authenticate c packet.username packet.password))
        (authenticated arg) (not_authenticated arg)
        (set_client c (record (w.clients c) { paused = true }) w)

  pub set_keep_alive : Packet → ConnectArg → M (World O) ConnectArg
  set_keep_alive packet arg w = pure arg (
      if ltb 0 packet.keepalive
      then set_client c
          (record (w.clients c) {
            keepalive_interval = some (packet.keepalive * 1500 + 1);
            keepalive_timer = true;
          })
          w
      else w)

  pub fetch_subs : Packet → ConnectArg → M (World O) ConnectArg
  fetch_subs packet arg w =
      if packet.clean
      then (request h (some c) asks_clean_subscriptions (h.clean_subscriptions (w.clients c).id)
            >> pure (record arg { session_present = false }))
          w
      else (request h (some c) asks_subscriptions_by_client
              (h.subscriptions_by_client (w.clients c).id)
            >>= λ subs. pure (record arg { subs = some_if_any subs }))
          w

  restore : ConnectArg → Option (List Sub) → M (World O) ConnectArg
  restore arg none = pure (record arg { session_present = false })
  restore arg (some subs) =
      handle_subscribe h c true (record (blank Cmd.subscribe) { subscriptions = subs })
      >> pure (record arg { session_present = true })

  pub restore_subs : ConnectArg → M (World O) ConnectArg
  unfolding restore
  restore_subs arg = restore arg arg.subs

  put_will_of : Option Packet → M (World O) (Unit {0})
  put_will_of none w = pure tt w
  put_will_of (some will) w =
      request h (some c) (asks_put_will will) (h.put_will (w.clients c).id will) w

  -- `.finally(…)`: also when the old will could not be deleted.
  pub store_will : ConnectArg → M (World O) ConnectArg
  unfolding put_will_of
  store_will arg w =
      let w' = set_client c (record (w.clients c) { will = (w.clients c).pending_will }) w in
      (settle (request h (some c) asks_del_will (h.del_will (w'.clients c).id))
            (λ _ v. put_will_of (v.clients c).will v) (λ _ v. put_will_of (v.clients c).will v)
          >> pure arg)
        w'

  -- What `broker.registerClient` throws ends the callback of the persistence, and the series stops.
  registered : ConnectArg → Registration O → World O → Outcome ConnectArg × World O
  registered arg (goes_on w) before = pure arg w
  registered arg throws before = never before

  pub register : ConnectArg → M (World O) ConnectArg
  unfolding registered register_client
  register arg w = registered arg (register_client h c w) w

  pub connack_action : ConnectArg → M (World O) ConnectArg
  unfolding do_connack
  connack_action arg = do_connack arg.return_code arg.session_present >> pure arg

  -- `client.resume()` reads on; what it reads is handled by other tasks.
  pub empty_queue : ConnectArg → M (World O) ConnectArg
  unfolding clear_queue
  empty_queue arg w =
      (request h (some c) asks_outgoing_stream (h.outgoing_stream (w.clients c).id) >>= λ packets.
      clear_queue h c packets >> pure arg)
        (set_client c (record (w.clients c) { paused = false }) w)

  pub connect_actions : Packet → List (ConnectArg → M (World O) ConnectArg)
  unfolding authenticate set_keep_alive fetch_subs restore_subs store_will register connack_action
      empty_queue
  connect_actions packet =
      authenticate packet
      ∷ set_keep_alive packet
      ∷ fetch_subs packet
      ∷ restore_subs
      ∷ store_will
      ∷ register
      ∷ connack_action
      ∷ empty_queue
      ∷ []

  -- The function after the series.
  pub after_series : Outcome ConnectArg × World O → Outcome (Unit {0}) × World O
  after_series (silent, w) = (silent, w)
  after_series (fail e, w) = (fail e, set_client c (record (w.clients c) { connecting = false }) w)
  after_series (done arg, w) =
      let w' = set_client c (record (w.clients c) { connecting = false; connected = true }) w in
      (done tt, emit (some c) (connected_event c) (emit none (client_ready_event c) w'))

  -- `clientId || 'aedes_' + randomUUID()`
  abbrev chosen_id : Option Text → World O → Text × World O
  chosen_id (some (x ∷ xs)) w = (x ∷ xs, w)
  chosen_id _ w =
      let (uuid, o) = h.random_uuid w.outside in (codes "aedes_" ++ uuid, record w { outside = o })

  abbrev pending : Option Will → Option Packet
  pending none = none
  pending (some will) = some (will_packet will)

  set_params : Packet → World O → World O
  set_params packet w =
      let (id, w') = chosen_id packet.client_id w in
      set_client c
        (record (w'.clients c) {
          id = some id;
          clean = packet.clean;
          version = packet.protocol_version;
          pending_will = pending packet.will;
        })
        w'

  accept : Packet → M (World O) (Unit {0})
  unfolding connect_actions after_series set_params run_series
  accept packet w = after_series (
      run_series (connect_actions packet)
        (record { return_code = 0; session_present = false; subs = none }) (set_params packet w))

  unfoldable pub init : Packet → M (World O) (Unit {0})
  unfolding accept do_connack return_code_of
  init packet w =
      let code = return_code_of w.broker.max_clients_id_length w.broker.keepalive_limit packet in
      if ltb 0 code
      then settle (do_connack code false) (λ _. throw (refused code)) (λ _. throw (refused code)) w
      else accept packet w

  -- `negate` of `handleConnect`.
  pre_connected : Packet → Outcome Bool × World O → Outcome (Unit {0}) × World O
  unfolding init
  pre_connected packet (done true, w) = init packet (h.meanwhile w)
  pre_connected packet (done false, w) =
      (done tt, set_client c (record (w.clients c) { connecting = false }) w)
  pre_connected packet (fail e, w) =
      (fail e, set_client c (record (w.clients c) { connecting = false }) w)
  pre_connected packet (silent, w) = (silent, w)

  -- `handleConnect(client, packet, done)`
  unfoldable pub handle_connect : Packet → M (World O) (Unit {0})
  unfolding pre_connected
  handle_connect packet w = pre_connected packet (
      request h (some c) (asks_pre_connect packet) (h.pre_connect c packet)
        (set_client c (record (w.clients c) { connect_timer = false; connecting = true }) w))
