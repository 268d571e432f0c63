-- ===== src/LifeCycle/Startup.antt =====
-- aedes.js: `createBroker` and `listen`.
use aedes.Common.{Bool, not, false, ◌++◌, none, Text, codes, if◌then◌else◌}
use aedes.Errors.{setup_not_async}
use aedes.Run.{Outcome, M, pure, throw, ◌>>◌}
use aedes.World.{World, Host, requested, asks_setup, asks_listen}
use aedes.World.Steps.{note, request}
use aedes.Broker.Publishing.{sys_prefix}
use aedes.LifeCycle.{Options, new_broker, birth}

module _ {O : Type 0} (h : Host O) (is_async : Bool) (setup : O → Outcome (Unit {0}) × O) where
  -- `this.mq.on(topic, …)`, for the functions of the broker itself.
  abbrev listen_to : Text → World O → World O
  listen_to suffix w = note none (requested (asks_listen (sys_prefix ++ suffix))) w

  -- The start of the intervals has no effect of its own. The birth message is on its way while the
  -- functions are given to the message queue; here they come after it.
  start_listening : World O → World O
  start_listening w =
      listen_to (codes "+/new/clients")
        (listen_to (codes "+/birth") (listen_to (codes "+/heartbeat") (birth h w)))

  unfoldable pub listen : M (World O) (Unit {0})
  unfolding start_listening
  listen w =
      let w1 = record w { broker = record (w.broker) { connected_clients = 0; closed = false } } in
      if not is_async
      then throw setup_not_async w1
      else (request h none asks_setup setup >> λ w2. pure tt (start_listening w2)) w1

  -- `Aedes.createBroker(opts)`
  unfoldable pub create_broker : Options → Text → M (World O) (Unit {0})
  unfolding listen
  create_broker opts uuid w = listen (record w { broker = new_broker opts uuid })
