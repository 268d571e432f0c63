-- ===== src/Lib.antt =====
-- aedes: the core of an MQTT broker, modelled and verified.
--
-- The program (aedes.js and lib/). A broker object keeps the registered clients and publishes
-- packets through a message queue (mqemitter) and a persistence (aedes-persistence). Each
-- connection has a Client object, which parses packets, queues them until the client is connected,
-- and hands them to the handlers of lib/handlers; packets go back through lib/write.js. All code
-- is in callback style: a step calls another and passes a function that takes an error or a
-- value.
--
-- The files.
--   Common           shared names, texts as lists of UTF-16 code units, tests
--   Errors           the errors that the code makes
--   Topic            lib/utils.js: topicLevelCount, validateTopic
--   Flow             lib/utils.js: runParallel, once, batch
--   Run              lib/utils.js: runSeries, runFall; the outcomes of callbacks
--   Dict             JavaScript objects used as maps
--   Packet, World    the packets, the Client and broker objects, the code outside
--   Session          lib/client.js, lib/qos-packet.js: message ids, duplicates, drain callbacks,
--                    the way of packets from the parser to the handlers
--   Write            lib/write.js
--   Broker           aedes.js: publish; the registration of clients, with close of lib/client.js
--   Forward          lib/client.js: deliver0, deliverQoS, publish; the function of a subscription
--   Handlers         lib/handlers: CONNECT, PUBLISH, SUBSCRIBE, UNSUBSCRIBE, the acknowledgements,
--                    PINGREQ, the dispatcher; the exchanges of QoS 2
--   LifeCycle        aedes.js: start, options and default hooks, heartbeat, wills of dead
--                    brokers, the messages of the cluster, close
--   Delivery         the vocabulary and the rules for statements on what is published
--   Sample           a small world for tests
--
-- How code is modelled. A function that ends by its callback is a state transformer `M (World O)`
-- with an outcome: `done`, `fail`, or `silent` if the callback is never called. Client objects
-- stand in a heap, addressed by the number of their connection. The code outside (sockets,
-- mqtt-packet, aedes-packet, the persistence, the message queue, the hooks of the options) is a
-- parameter `Host`, with its state `O`; what a theorem assumes of it is a named record. Between a
-- call and its callback other tasks may run: `Host.meanwhile` changes the world there in any way,
-- unless a theorem says otherwise. The traces of clients and of the broker are ghost fields that
-- record the effects. Loops recur on the list that they walk, so that no fuel is needed. Numbers
-- are natural numbers; message ids wrap at 65535 as in the code.
--
-- The topics of a packet are worked on one after the other in the models of the handlers; in
-- Handlers/Subscribe/Interleaving those of a SUBSCRIBE run their actions in any order.
--
-- Not modelled: the orders of the topics of an UNSUBSCRIBE, an assignment to the key "__proto__",
-- emptyOutgoingQueue of lib/client.js (its end depends on the streams of Node.js), the parser, and
-- what Node.js does with streams, timers, listeners and sockets; scripts and examples around the
-- library.
pub mod Common
pub mod Errors
pub mod Topic
pub mod Flow
pub mod Run
pub mod Dict
pub mod Packet
pub mod World
pub mod Session
pub mod Write
pub mod Broker
pub mod Forward
pub mod Handlers
pub mod LifeCycle
pub mod Delivery
pub mod Sample
