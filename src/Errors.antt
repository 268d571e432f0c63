-- ===== src/Errors.antt =====
-- The errors that the code creates (`new Error('…')` in aedes.js and lib/) and those that it
-- receives from the code it calls.
use aedes.Common.{ℕ}

-- The `message` argument of `validateTopic`.
pub data Verb : Type 0 where
  subscribe_verb unsubscribe_verb : Verb

pub data Error : Type 0 where
  -- validateTopic, the guards of PUBLISH and of the broker
  empty_topic hash_position plus_position : Verb → Error
  too_many_levels empty_publish_topic hash_in_publish plus_in_publish : Error
  -- the client
  queue_limit drain_timeout connection_closed packet_not_valid keepalive_timeout : Error
  connect_timeout invalid_protocol : Error
  -- listen
  setup_not_async : Error
  -- CONNECT: the return code of the CONNACK
  refused : ℕ → Error
  -- the default authorizePublish
  reserved_topic : Error
  -- an error made by the code that is called, and its `returnCode` (0 if it has none)
  external : ℕ → Error
