-- ===== src/Handlers/Unsubscribe/Examples.antt =====
-- UNSUBSCRIBE of a client with one subscription.
use aedes.Common.{
  refl, ◌≡◌, [], ◌∷◌, none, some, codes, text_eq, any, true, false, if◌then◌else◌, List, ◌≤◌, arith,
}
use aedes.Errors.{Error, empty_topic, unsubscribe_verb}
use aedes.Run.{done, fail}
use aedes.Dict.{get, slot, Dict}
use aedes.Topic.{validate_topic, topic_level_count}
use aedes.World.{Client, World}
use aedes.Sample.{sample_host, connected_client, world_of}
use aedes.Handlers.Unsubscribe.{unsubscribe_all, handle_unsubscribe}
use aedes.Packet.{Sub}
use aedes.Handlers.Listening.{
  Listeners, listening_host, listeners, listening-Routes, new_world, new_world-Agree,
}
use aedes.Handlers.Subscribe.{subscribe_all}
use aedes.Handlers.Subscribe.Routing.{Agree}
use aedes.Handlers.Subscribe.Interleaving.Agreement.{subscribe_all-Agree}
use aedes.Handlers.Unsubscribe.GivenUp.{unsubscribe_all-given_up}
use aedes.Handlers.Unsubscribe.Agreement.{unsubscribe_all-Agree}
use aedes.Handlers.Unsubscribe.Removal.{
  subscribed, unsubscribe_all-subscribed, handle_unsubscribe_rejected,
}

abbrev subscriber : Client
subscriber = record connected_client {
  subscriptions =
      (
        codes "a",
        record {
          qos = 1;
          func = record { with_qos = true; nl = false; rap = false; block_dollar = false };
          rh = none;
          rap = none;
          nl = none;
        },
      )
      ∷ [];
}

unsubscribe_all-subscribed_example :
    subscribed 0
      (codes "a")
      (unsubscribe_all sample_host 0 (codes "a" ∷ codes "b" ∷ []) (world_of subscriber)).1
    ≡ (if any (λ topic. text_eq topic (codes "a")) (codes "a" ∷ codes "b" ∷ [])
        then none
        else subscribed 0 (codes "a") (world_of subscriber))
unfolding unsubscribe_all aedes.Handlers.Subscribe.mq_unsubscribe get slot text_eq topic_level_count
    aedes.Dict.is_inherited aedes.Dict.remove
unsubscribe_all-subscribed_example =
    unsubscribe_all-subscribed sample_host 0 (λ w. refl) (codes "a") (codes "a" ∷ codes "b" ∷ [])
      (world_of subscriber) refl

handle_unsubscribe_rejected_example :
    (e : Error) × (handle_unsubscribe sample_host 0
        (some 3)
        (codes "a" ∷ [] ∷ [])
        (world_of subscriber)
      ≡ (fail e, world_of subscriber))
unfolding validate_topic
handle_unsubscribe_rejected_example =
    handle_unsubscribe_rejected sample_host 0 (some 3) (codes "a" ∷ []) [] []
      (empty_topic unsubscribe_verb) (world_of subscriber) refl

abbrev asked : List Sub
asked =
    record { topic = codes "a"; qos = 1; rh = none; rap = none; nl = none }
    ∷ record { topic = codes "b"; qos = 0; rh = none; rap = none; nl = none }
    ∷ []

-- A client that subscribed to two topics, and the message queue that listens for it.
abbrev subscribed_world : World Listeners
subscribed_world = (subscribe_all listening_host 0 false asked asked new_world).2

unsubscribe_all-Agree_example :
    Agree listening_host 0 100 listeners listening-Routes
      (unsubscribe_all listening_host 0 (codes "a" ∷ codes "x" ∷ []) subscribed_world).1
unsubscribe_all-Agree_example =
    unsubscribe_all-Agree listening_host 0 100 listeners listening-Routes
      (codes "a" ∷ codes "x" ∷ []) subscribed_world
      (subscribe_all-Agree listening_host 0 100 listeners listening-Routes false asked asked
        new_world new_world-Agree)

-- The client with one subscription, and a message queue that listens to its topic.
abbrev routed_world : World Listeners
routed_world = record new_world {
  clients = λ c. subscriber;
  outside =
      (codes "a", record { with_qos = true; nl = false; rap = false; block_dollar = false }) ∷ [];
}

routed_world-Agree : Agree listening_host 0 100 listeners listening-Routes routed_world
unfolding get listeners
routed_world-Agree = record { limit = refl; routed = λ t. ground arith }

routed_world_shallow : topic_level_count (some (codes "a")) ≤ 100
unfolding topic_level_count
routed_world_shallow = omega arith

unsubscribe_all-given_up_example :
    ((unsubscribe_all listening_host 0 (codes "a" ∷ []) routed_world).0 ≡ done tt)
    × (subscribed 0 (codes "a") (unsubscribe_all listening_host 0 (codes "a" ∷ []) routed_world).1
        ≡ none)
    × (listeners
          (unsubscribe_all listening_host 0 (codes "a" ∷ []) routed_world).1.outside
          (codes "a")
        ≡ [])
unfolding aedes.Dict.is_inherited
unsubscribe_all-given_up_example =
    unsubscribe_all-given_up listening_host 0 100 listeners listening-Routes routed_world
      (codes "a") routed_world-Agree (routed_world_shallow, tt) (refl, tt)
