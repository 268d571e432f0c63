-- ===== src/LifeCycle/Examples.antt =====
-- Tests of the life cycle: two brokers of a cluster, and a broker with the default hooks.
use aedes.Broker.Registry.{announcement}
use aedes.LifeCycle.Cluster.{hear_new_client}
use aedes.LifeCycle.Cluster.Announcements.{hear_new_client-announcement}
use aedes.Common.{starts_with, ℕ, none, some, refl, ◌≡◌, ◌⊎◌, [], ◌∷◌, codes, text_eq, true, arith}
use aedes.Dict.{get, Dict, is_inherited}
use aedes.World.{World}
use aedes.Session.Duplicates.{dedupe}
use aedes.Sample.{Store, sample_broker, connected_client, sample_publish, sample_host, world_of}
use aedes.LifeCycle.{broker_born}
use aedes.LifeCycle.Brokers.{broker_born-dedupe}
use aedes.Topic.{topic_level_count}
use aedes.Errors.{
  Error, reserved_topic, empty_publish_topic, hash_in_publish, plus_in_publish, too_many_levels,
}
use aedes.Handlers.Storing.{sample-Speaks}
use aedes.Run.{done, fail, run_series}
use aedes.Packet.{Packet}
use aedes.Handlers.Publish.{authorize_publish, publish_actions, handle_publish}
use aedes.Handlers.Publish.Guards.{IsPublishable}
use aedes.LifeCycle.Hooks.{default_hooks, default_authorize_publish}
use aedes.LifeCycle.Reserved.{asked, handle_publish-reserved}

abbrev heard : Dict ℕ
heard = (codes "x", 100) ∷ (codes "y", 1000) ∷ []

abbrev other_packet : Packet
other_packet = record (sample_publish 1) { broker_id = some (codes "x"); broker_counter = 1 }

-- The client has had the packet 7 of the other broker before that was started anew.
abbrev world : World Store
world = record {
  clients = λ c. record connected_client { duplicates = (codes "x", 7) ∷ [] };
  broker = record sample_broker { clients = (codes "c", 0) ∷ [] };
  outside = [];
  next_callback = 0;
}

broker_born-dedupe_example :
    (dedupe ((broker_born (codes "x") world).clients 0) other_packet).0 ≡ true
unfolding text_eq is_inherited
broker_born-dedupe_example =
    broker_born-dedupe b'x' [] 0 other_packet world refl refl refl refl (omega arith)

-- A PUBLISH with the message id 5 to a topic that is reserved.
abbrev reserved_publish : Packet
reserved_publish = record (sample_publish 1) { topic = codes "$SYS/x" }

handle_publish-reserved_test :
    (handle_publish (default_hooks sample_host) 0 reserved_publish (world_of connected_client)).0
    ≡ fail reserved_topic
unfolding handle_publish publish_actions authorize_publish default_authorize_publish run_series
    topic_level_count starts_with
handle_publish-reserved_test = refl

handle_publish-reserved_example :
    (IsPublishable 100 (codes "$SYS/x")
      × (handle_publish (default_hooks sample_host) 0 reserved_publish (world_of connected_client)
          ≡ (
            fail reserved_topic,
            asked sample_host (some 0) reserved_publish (world_of connected_client),
          )))
    ⊎ ((¬ IsPublishable 100 (codes "$SYS/x"))
        × ((e : Error) × (handle_publish
                (default_hooks sample_host)
                0
                reserved_publish
                (world_of connected_client)
              ≡ (fail e, world_of connected_client))
            × (((e ≡ empty_publish_topic) ⊎ (e ≡ hash_in_publish))
                ⊎ ((e ≡ plus_in_publish) ⊎ (e ≡ too_many_levels)))))
unfolding starts_with
handle_publish-reserved_example =
    handle_publish-reserved sample_host reserved_publish refl (world_of connected_client) 0

-- The client 0 is registered under "c" here too.
hear_new_client-announcement_example :
    let r =
      hear_new_client sample_host
        (announcement (codes "/new/clients") (codes "other") (some (codes "c")))
        world in
    r.0 ≡ done tt
    × (r.1.clients 0).closed ≡ true
    × ((world.clients 0).closed ≡ true → get (codes "c") r.1.broker.clients ≡ none)
unfolding get text_eq
hear_new_client-announcement_example =
    hear_new_client-announcement sample_host (codes "other") (codes "c") 0 world
      ((λ e. cc), ((λ e. cc), ((λ e. cc), ((λ e. cc), ((λ e. cc), tt))))) refl refl sample-Speaks
      (λ v q. q)
