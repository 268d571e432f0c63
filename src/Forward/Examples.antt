-- ===== src/Forward/Examples.antt =====
-- A packet on its way to a subscriber.
use aedes.Common.{refl, ◌≡◌, [], ◌∷◌, none, some, codes, true, false, min, text_eq}
use aedes.Run.{done}
use aedes.Dict.{get, slot, own, absent}
use aedes.Packet.{Packet}
use aedes.World.{Client, Func, Subscription}
use aedes.Sample.{sample_host, connected_client, world_of, sample_publish}
use aedes.Forward.{deliver_qos, deliver_subscribed}
use aedes.Forward.Rules.{written}
use aedes.Forward.Checks.{PassesOn}
use aedes.Forward.Qos.{Forwards, deliver_qos-min, deliver_qos-unlowered}
use aedes.Forward.Callback.{CallsBack, deliver_subscribed-done}
use aedes.Forward.NoLocal.{CopiesClient, deliver_subscribed_no_local}

abbrev no_local : Func
no_local = record { with_qos = true; nl = true; rap = false; block_dollar = false }

abbrev at_qos_1 : Subscription
at_qos_1 = record { qos = 1; func = no_local; rh = none; rap = none; nl = some true }

abbrev subscriber : Client
subscriber = record connected_client { subscriptions = (codes "a/b", at_qos_1) ∷ [] }

abbrev wildcard_subscriber : Client
wildcard_subscriber = record connected_client { subscriptions = (codes "a/+", at_qos_1) ∷ [] }

abbrev own_publish : Packet
own_publish = record (sample_publish 1) { client_id = some (codes "c") }

sample-PassesOn : PassesOn sample_host
sample-PassesOn = record { copies = λ p id n. (refl, refl); forwards = λ c p q o e. (cc, cc) }

sample-CallsBack : CallsBack sample_host
sample-CallsBack = record { drain_ends = λ c o e. cc; update_ends = λ id p o e. cc }

sample-CopiesClient : CopiesClient sample_host
sample-CopiesClient = record { copies_client = λ p id n. refl }

deliver_qos-min_example :
    Forwards
      (λ q. q.qos ≡ min 2 1)
      (written 0 (world_of subscriber))
      (written 0 (deliver_qos sample_host 0 (sample_publish 2) (world_of subscriber)).1)
unfolding slot get text_eq
deliver_qos-min_example =
    deliver_qos-min sample_host 0 (λ w. refl) sample-PassesOn (sample_publish 2) at_qos_1
      (world_of subscriber) refl

deliver_qos-unlowered_example :
    Forwards
      (λ q. q.qos ≡ 2)
      (written 0 (world_of wildcard_subscriber))
      (written 0 (deliver_qos sample_host 0 (sample_publish 2) (world_of wildcard_subscriber)).1)
unfolding slot get text_eq aedes.Dict.is_inherited
deliver_qos-unlowered_example =
    deliver_qos-unlowered sample_host 0 (λ w. refl) sample-PassesOn (sample_publish 2)
      (world_of wildcard_subscriber) refl

deliver_subscribed-done_example :
    (deliver_subscribed sample_host 0 no_local (sample_publish 1) (world_of subscriber)).0 ≡ done tt
deliver_subscribed-done_example =
    deliver_subscribed-done sample_host 0 sample-CallsBack no_local (sample_publish 1)
      (world_of subscriber)

deliver_subscribed_no_local_example :
    written 0 (deliver_subscribed sample_host 0 no_local own_publish (world_of subscriber)).1
    ≡ written 0 (world_of subscriber)
deliver_subscribed_no_local_example =
    deliver_subscribed_no_local sample_host 0 (λ w. refl) sample-CopiesClient no_local (codes "c")
      own_publish (world_of subscriber) refl refl refl
