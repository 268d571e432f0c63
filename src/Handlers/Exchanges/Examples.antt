-- ===== src/Handlers/Exchanges/Examples.antt =====
-- The theorem on exchanges at a concrete world: two exchanges with one message id.
use aedes.Common.{◌+◌, ◌≡◌, refl, [], ◌∷◌, some, codes, arith}
use aedes.Packet.{Cmd, Packet, blank}
use aedes.Delivery.{emissions}
use aedes.Sample.{sample_host, world_of, connected_client, sample_publish}
use aedes.Topic.Levels.{split}
use aedes.Handlers.Publish.Guards.{IsPublishable}
use aedes.Handlers.Storing.{IsStored, sample_keeps, sample-Serves}
use aedes.Handlers.Exchanges.{Exchange, exchange_all, IsExchange}
use aedes.Handlers.Exchanges.Exactly.{exchange_all-exactly}

abbrev sample_release : Packet
sample_release = record (blank Cmd.pubrel) { message_id = some 5 }

abbrev sample_exchange : Exchange
sample_exchange = record {
  publish = sample_publish 2;
  published_again = sample_publish 2 ∷ [];
  release = sample_release;
  released_again = sample_release ∷ [];
}

sample-IsPublishable : IsPublishable 100 (codes "a/b")
unfolding split
sample-IsPublishable = record {
  full = λ e. cc;
  plain = ((λ e. cc, λ e. cc), ((λ e. cc, λ e. cc), ((λ e. cc, λ e. cc), tt)));
  shallow = omega arith;
}

sample-IsExchange : IsExchange 100 (some 5) sample_exchange
sample-IsExchange = record {
  publishable = sample-IsPublishable;
  publishes = ((refl, refl), ((refl, refl), tt));
  releases = (refl, (refl, tt));
}

exchange_all-exactly_example :
    emissions
      ((exchange_all sample_host 0
          (sample_exchange ∷ sample_exchange ∷ [])
          (world_of connected_client)).clients
        0).trace
    ≡ 0 + 2
exchange_all-exactly_example =
    exchange_all-exactly 0 IsStored (some (codes "c")) (some 5) sample_host sample_keeps
      sample-Serves (λ w. refl) 100 (sample_exchange ∷ sample_exchange ∷ [])
      (world_of connected_client) (sample-IsExchange, (sample-IsExchange, tt)) refl (λ st. cc) refl
