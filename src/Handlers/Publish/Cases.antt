-- ===== src/Handlers/Publish/Cases.antt =====
-- The two ways that `handlePublish` of lib/handlers/publish.js can go.
use aedes.Common.{ℕ, ◌==◌, any, some, length, ltb, if_both}
use aedes.Errors.{Error}
use aedes.Run.{Outcome, fail, pure, continue_with, run_series}
use aedes.Topic.{topic_level_count, plus, hash}
use aedes.Packet.{Packet}
use aedes.World.{World, Host}
use aedes.Handlers.Publish.{publish_actions, handle_publish}

-- `handle_publish` throws without changing anything, or runs its two actions.
pub handle_publish_cases :
    {O : Type 0} (h : Host O) (c : ℕ) (P : Outcome (Unit {0}) × World O → Type 0) (p : Packet)
    (w : World O)
    → ((e : Error) → P (fail e, w))
    → P (continue_with (λ _. pure tt) (run_series (publish_actions h c) p w))
    → P (handle_publish h c p w)
unfolding handle_publish
handle_publish_cases h c P p w refused runs = if_both P (length p.topic == 0) (refused _) (
    if_both P (any (λ x. x == hash) p.topic) (refused _) (
      if_both P (any (λ x. x == plus) p.topic) (refused _) (
        if_both P (ltb w.broker.max_topic_levels (topic_level_count (some p.topic))) (refused _)
          runs)))
