-- ===== src/Topic/Examples.antt =====
-- Tests of the topic functions of lib/utils.js, and their theorems at concrete topics.
use aedes.Common.{
  ℕ, zero, suc, ◌≡◌, refl, ◌≢◌, ◌↔◌, ◌⊎◌, ◌≤◌, [], none, some, Text, length, codes, All, arith,
}
use aedes.Errors.{
  subscribe_verb, unsubscribe_verb, empty_topic, hash_position, plus_position, too_many_levels,
}
use aedes.Topic.{slash, topic_level_count, validate_topic}
use aedes.Topic.Levels.{split, join, topic_level_count-split}
use aedes.Topic.Validation.{IsPlaced, validate_topic_iff}
use aedes.Topic.Conformance.{IsConformant, validate_topic-IsConformant}

level_tests :
    (topic_level_count (some (codes "a/b/c")) ≡ 3)
    × (topic_level_count (some []) ≡ 1)
    × (topic_level_count none ≡ 0)
    × (topic_level_count (some (codes "//")) ≡ 3)
unfolding topic_level_count
level_tests = (refl, refl, refl, refl)

validate_tests :
    (validate_topic (some (codes "a/+/b/#")) subscribe_verb 100 ≡ none)
    × (validate_topic (some (codes "a/#/b")) subscribe_verb 100
        ≡ some (hash_position subscribe_verb))
    × (validate_topic (some (codes "abc#")) subscribe_verb 100
        ≡ some (hash_position subscribe_verb))
    × (validate_topic (some (codes "a/b+/c")) unsubscribe_verb 100
        ≡ some (plus_position unsubscribe_verb))
    × (validate_topic (some []) subscribe_verb 100 ≡ some (empty_topic subscribe_verb))
    × (validate_topic (some (codes "a/b/c")) subscribe_verb 2 ≡ some too_many_levels)
    × (validate_topic (some (codes "+a")) subscribe_verb 2 ≡ none)
unfolding validate_topic
validate_tests = (refl, refl, refl, refl, refl, refl, refl)

topic_level_count-split_example :
    (topic_level_count (some (codes "a//b")) ≡ length (split (codes "a//b")))
    × (join (split (codes "a//b")) ≡ codes "a//b")
    × All (All (λ c. c ≢ slash)) (split (codes "a//b"))
topic_level_count-split_example = topic_level_count-split (codes "a//b")

validate_topic_iff_example : (validate_topic (some (codes "a/#")) subscribe_verb 100 ≡ none) ↔ (
    (t : Text) × (some (codes "a/#") ≡ some t)
    × (t ≢ [])
    × ((◌≡◌ {A = ℕ} 100 0) ⊎ (topic_level_count (some t) ≤ 100))
    × IsPlaced t)
validate_topic_iff_example = validate_topic_iff (some (codes "a/#")) subscribe_verb 100

sport_IsConformant : IsConformant (codes "a/#")
sport_IsConformant zero = ground arith
sport_IsConformant (suc zero) = ground arith
sport_IsConformant (suc (suc zero)) = ground arith
sport_IsConformant (suc (suc (suc i))) = ground arith

validate_topic-IsConformant_example : validate_topic (some (codes "a/#")) subscribe_verb 100 ≡ none
unfolding topic_level_count
validate_topic-IsConformant_example =
    validate_topic-IsConformant (codes "a/#") subscribe_verb 100 (λ e. cc) (omega arith)
      sport_IsConformant
