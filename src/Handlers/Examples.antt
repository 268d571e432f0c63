-- ===== src/Handlers/Examples.antt =====
-- Tests of the handlers, and their theorems at concrete worlds.
use aedes.Common.{◌+◌, ◌≤◌, ◌≡◌, refl, ◌≢◌, ◌⊎◌, [], ◌∷◌, some, codes, arith}
use aedes.Errors.{Error, empty_publish_topic, hash_in_publish, plus_in_publish, too_many_levels}
use aedes.Run.{fail, silent, pure, ◌>>◌, run_series}
use aedes.Packet.{Cmd, Packet, blank}
use aedes.World.{World}
use aedes.Write.{write}
use aedes.Delivery.{emissions}
use aedes.Broker.Publishing.{publish}
use aedes.Handlers.Publish.{publish_actions, handle_publish}
use aedes.Handlers.Publish.Guards.{IsPublishable, handle_publish_guards}
use aedes.Handlers.Publish.Once.{handle_all, handle_all-once}
use aedes.Handlers.Acks.{pub_comp, handle_pubrel}
use aedes.Handlers.Acks.Pubcomp.{Answers, handle_pubrel-pub_comp}
use aedes.Handlers.Dispatch.{handle}
use aedes.Handlers.Dispatch.Ending.{handle-ends}
use aedes.Handlers.Storing.{IsStored, sample_keeps, never_silent, sample-Speaks}
use aedes.Sample.{Store, sample_host, world_of, connected_client, sample_publish}

-- The first PUBLISH of QoS 2 is published, the second is only acknowledged.
publish_twice :
    (emissions
        ((handle_publish sample_host 0 (sample_publish 2) (world_of connected_client)).1.clients
          0).trace
      ≡ 1)
    × (emissions
          ((handle_all sample_host 0
              (sample_publish 2 ∷ sample_publish 2 ∷ [])
              (world_of connected_client)).clients
            0).trace
        ≡ 1)
unfolding handle_publish publish write handle_all run_series
publish_twice = (refl, refl)

handle_all-once_example :
    emissions
      ((handle_all sample_host 0
          (sample_publish 2 ∷ sample_publish 2 ∷ [])
          (world_of connected_client)).clients
        0).trace
    ≤ 0 + 1
handle_all-once_example =
    handle_all-once 0 IsStored (some (codes "c")) (some 5) sample_host sample_keeps (λ w. refl)
      (sample_publish 2 ∷ sample_publish 2 ∷ []) (world_of connected_client)
      ((refl, refl), ((refl, refl), tt)) refl

handle_publish_guards_example :
    (IsPublishable 100 (codes "a/b")
      × (handle_publish sample_host 0 (sample_publish 1) (world_of connected_client)
          ≡ (run_series (publish_actions sample_host 0) (sample_publish 1) >> pure tt)
              (world_of connected_client)))
    ⊎ ((¬ IsPublishable 100 (codes "a/b"))
        × ((e : Error) × (handle_publish sample_host 0
                (sample_publish 1)
                (world_of connected_client)
              ≡ (fail e, world_of connected_client))
            × (((e ≡ empty_publish_topic) ⊎ (e ≡ hash_in_publish))
                ⊎ ((e ≡ plus_in_publish) ⊎ (e ≡ too_many_levels)))))
handle_publish_guards_example =
    handle_publish_guards sample_host 0 (sample_publish 1) (world_of connected_client)

sample-Answers : Answers sample_host
sample-Answers = record { get_answers = λ id p o. never_silent p o; del_answers = λ id p o e. cc }

abbrev release : Packet
release = record (blank Cmd.pubrel) { message_id = some 5 }

handle_pubrel-pub_comp_example :
    (w' : World Store) × (handle_pubrel sample_host 0 release (world_of connected_client)
      ≡ write sample_host 0 (pub_comp release) w')
handle_pubrel-pub_comp_example =
    handle_pubrel-pub_comp sample_host 0 sample-Answers release (world_of connected_client)

handle-ends_example :
    (handle sample_host 0 (sample_publish 2) (world_of connected_client)).0 ≢ silent
handle-ends_example =
    handle-ends sample_host 0 (sample_publish 2) (world_of connected_client) sample-Speaks
      (λ v q. q) (refl, refl) (λ e. cc) (omega arith)
