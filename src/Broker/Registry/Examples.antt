-- ===== src/Broker/Registry/Examples.antt =====
-- Two clients with one id, registered one after the other.
use aedes.Common.{refl, none, some, codes, text_eq, true, ◌==◌, if◌then◌else◌, ◌∷◌, []}
use aedes.Dict.{get}
use aedes.World.{Client, World}
use aedes.Sample.{Store, sample_host, sample_broker, connected_client, sample_publish}
use aedes.Broker.Publishing.Still.{IsStill}
use aedes.Broker.Registry.Takeover.{
  TakesOver, LosesId, register_client-TakesOver, register_client-LosesId,
}

abbrev holder : Client
holder = record connected_client { authorized = true; will = some (sample_publish 1) }

abbrev closing_holder : Client
closing_holder = record holder { closed = true; queue = none; closing = some none }

-- The client 0 is registered under "c"; the client 1 has the same id and comes to register.
abbrev two_clients : Client → World Store
two_clients first = record {
  clients = λ c. if c == 0 then first else connected_client;
  broker = record sample_broker { clients = (codes "c", 0) ∷ []; connected_clients = 1 };
  outside = [];
  next_callback = 0;
}

sample-IsStill : IsStill sample_host
sample-IsStill = record {
  still_registered = λ w. refl;
  still_counted = λ w. refl;
  still_objects = λ w. refl;
}

register_client-TakesOver_example : TakesOver sample_host (codes "c") 0 1 (two_clients holder)
unfolding get text_eq
register_client-TakesOver_example =
    register_client-TakesOver sample_host sample-IsStill 0 1 (codes "c") (two_clients holder) refl
      refl refl refl refl refl

register_client-LosesId_example : LosesId sample_host (codes "c") 0 1 (two_clients closing_holder)
unfolding get text_eq
register_client-LosesId_example =
    register_client-LosesId sample_host sample-IsStill 0 1 (codes "c") (two_clients closing_holder)
      refl refl refl refl refl refl
