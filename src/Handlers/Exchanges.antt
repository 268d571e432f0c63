-- ===== src/Handlers/Exchanges.antt =====
-- Exchanges of QoS 2, from the PUBLISH to the PUBREL (lib/handlers/publish.js and pubrel.js).
pub mod Exactly
mod Examples
use mathlib.Core.Path.{subst}
use aedes.Common.{
  ℕ, suc, ◌+◌, ◌≤◌, ◌≡◌, refl, sym, ap, ◌∙◌, ◌⊎◌, inl, inr, true, false, List, [], ◌∷◌, Option,
  none, some, Text, All, length, arith,
}
use aedes.Errors.{Error}
use aedes.Run.{silent, done, fail}
use aedes.Packet.{Packet}
use aedes.World.{World, Host, Effect}
use aedes.World.Steps.{note}
use aedes.World.Ends.{Speaks, Stable}
use aedes.Delivery.{KeepsIncoming, Serves, IsSteady, emissions}
use aedes.Delivery.Rules.{At}
use aedes.Handlers.Publish.{handle_publish}
use aedes.Handlers.Publish.Ending.{handle_publish-Ends}
use aedes.Handlers.Publish.Guards.{IsPublishable}
use aedes.Handlers.Publish.Exact.{handle_publish-Exactly}
use aedes.Handlers.Publish.Once.{handle_all, handle_all-OnceMore}
use aedes.Handlers.Acks.{handle_pubrel}
use aedes.Handlers.Acks.Ending.{handle_pubrel-Ends}
use aedes.Handlers.Acks.Release.{handle_pubrel-Released}

-- The packets by which a client hands over one message: the PUBLISH, sent again as often as it
-- likes, and then the PUBREL, sent again as often as it likes.
pub record Exchange : Type 0 where
  pub publish : Packet
  pub published_again : List Packet
  pub release : Packet
  pub released_again : List Packet

release_all : {O : Type 0} → Host O → ℕ → List Packet → World O → World O
release_all h c [] w = w
release_all h c (p ∷ ps) w = release_all h c ps (handle_pubrel h c p w).1

exchange : {O : Type 0} → Host O → ℕ → Exchange → World O → World O
unfolding release_all
exchange h c x w =
    release_all h c (x.release ∷ x.released_again)
      (handle_all h c (x.publish ∷ x.published_again) w)

unfoldable pub exchange_all : {O : Type 0} → Host O → ℕ → List Exchange → World O → World O
unfolding exchange
exchange_all h c [] w = w
exchange_all h c (x ∷ xs) w = exchange_all h c xs (exchange h c x w)

-- The packets of an exchange have the message id; the PUBLISH packets have QoS 2, and the first of
-- them has a topic to which one can publish.
pub record IsExchange (limit : ℕ) (m : Option ℕ) (x : Exchange) : Type 0 where
  pub publishable : IsPublishable limit x.publish.topic
  pub publishes : All (λ p. (p.qos ≡ 2) × (p.message_id ≡ m)) (x.publish ∷ x.published_again)
  pub releases : All (λ p. p.message_id ≡ m) (x.release ∷ x.released_again)
