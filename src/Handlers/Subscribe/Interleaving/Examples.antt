-- ===== src/Handlers/Subscribe/Interleaving/Examples.antt =====
-- Two topics of a SUBSCRIBE that take turns.
use aedes.Common.{
  Bool, arith, ℕ, zero, suc, ◌≤◌, ◌<◌, ◌≡◌, ◌↔◌, refl, List, [], ◌∷◌, none, some, codes, text_eq,
  if◌then◌else◌, length, map, false, arith,
}
use aedes.Run.{done}
use aedes.Packet.{Sub}
use aedes.World.{Host}
use aedes.Sample.{Store, sample_host, connected_client, world_of}
use aedes.Handlers.Listening.{
  listening_host, listeners, listening-Routes, new_world, new_world-Agree,
}
use aedes.Handlers.Subscribe.Routing.{Agree}
use aedes.Handlers.Subscribe.Interleaving.{advance_all, begin_subscribe}
use aedes.Handlers.Subscribe.Interleaving.Agreement.{advance_all-Agree}
use aedes.Handlers.Subscribe.Interleaving.Completion.{AreCompleted, advance_all_iff}
use aedes.Handlers.Subscribe.Interleaving.Fair.{turns}
use aedes.Handlers.Subscribe.Interleaving.Answers.{advance_all-calls}
use aedes.Handlers.Storing.{sample-Speaks}

abbrev two_topics : List Sub
two_topics =
    record { topic = codes "a"; qos = 1; rh = none; rap = none; nl = none }
    ∷ record { topic = codes "+/b"; qos = 0; rh = none; rap = none; nl = none }
    ∷ []

abbrev schedule : List ℕ
schedule = 0 ∷ 1 ∷ 1 ∷ 0 ∷ 1 ∷ 0 ∷ []

-- After all turns but the last, one topic has an action left.
abbrev early_schedule : List ℕ
early_schedule = 0 ∷ 1 ∷ 1 ∷ 0 ∷ 1 ∷ []

schedule-turns : (j : ℕ) → j < length two_topics → 3 ≤ turns j schedule
schedule-turns zero l = omega arith
schedule-turns (suc zero) l = omega arith
schedule-turns (suc (suc j)) l = absurd (omega arith)

early_actions :
    map
      (λ t. length t.actions)
      (advance_all early_schedule (
        begin_subscribe sample_host 0 false two_topics two_topics
          (world_of connected_client))).topics
    ≡ 1 ∷ 0 ∷ []
unfolding advance_all begin_subscribe
early_actions = refl

advance_all-Agree_example :
    Agree listening_host 0 100 listeners listening-Routes
      (advance_all schedule
        (begin_subscribe listening_host 0 false two_topics two_topics new_world)).world
advance_all-Agree_example =
    advance_all-Agree listening_host 0 100 listeners listening-Routes false two_topics two_topics
      schedule new_world new_world-Agree

advance_all_iff_example :
    let s =
      advance_all schedule
        (begin_subscribe sample_host 0 false two_topics two_topics (world_of connected_client)) in
    s.parallel.calls ≡ none ∷ [] ↔ AreCompleted s.topics
advance_all_iff_example =
    advance_all_iff sample_host 0 false two_topics two_topics schedule (world_of connected_client)

advance_all-calls_example :
    length
      (advance_all schedule (
        begin_subscribe sample_host 0 false two_topics two_topics
          (world_of connected_client))).parallel.calls
    ≡ 1
advance_all-calls_example =
    advance_all-calls sample_host 0 sample-Speaks (λ w q. q) false two_topics two_topics schedule
      (world_of connected_client) (refl, refl) schedule-turns

-- The hook refuses the second topic.
abbrev strict_host : Host Store
strict_host = record sample_host {
  authorize_subscribe =
      λ c sub o. (done (if text_eq sub.topic (codes "+/b") then none else some sub), o);
}

refused_codes :
    map
      (λ t. t.granted)
      (advance_all schedule (
        begin_subscribe strict_host 0 false two_topics two_topics
          (world_of connected_client))).topics
    ≡ 1 ∷ 128 ∷ []
unfolding advance_all begin_subscribe text_eq
refused_codes = refl

abbrev refuses : Sub → Bool
refuses sub = text_eq sub.topic (codes "+/b")
