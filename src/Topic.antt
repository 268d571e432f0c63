-- ===== src/Topic.antt =====
-- lib/utils.js: the level count of a topic and the validation of a topic filter.
pub mod Levels
pub mod Validation
pub mod Conformance
mod Examples
use aedes.Common.{
  ℕ, ◌+◌, ◌-◌, Bool, true, false, not, ◌&&◌, ◌||◌, List, [], ◌∷◌, Option, none, some, Text, length,
  get_elem?, ltb, ◌==◌, if◌then◌else◌,
}
use aedes.Errors.{Verb, Error, empty_topic, too_many_levels, hash_position, plus_position}

abbrev pub slash : ℕ
slash = 47

abbrev pub hash : ℕ
hash = 35

abbrev pub plus : ℕ
plus = 43

-- The loop of `topicLevelCount`.
levels_from : ℕ → Text → ℕ
levels_from levels [] = levels
levels_from levels (c ∷ cs) = levels_from (if c == slash then levels + 1 else levels) cs

-- `none` stands for a topic that is no string.
unfoldable pub topic_level_count : Option Text → ℕ
unfolding levels_from
topic_level_count none = 0
topic_level_count (some topic) = levels_from 1 topic

-- `topic.charCodeAt(i) !== code`; out of range `charCodeAt` is NaN, and the test holds.
abbrev pub differs : Option ℕ → ℕ → Bool
differs none code = true
differs (some c) code = not (c == code)

-- `notAtTheEnd || slashInPreEnd`
hash_misplaced : ℕ → Bool → ℕ → Bool
hash_misplaced last slash_in_pre_end i = not (i == last) || slash_in_pre_end

-- `pastChar || preChar`
plus_misplaced : Text → ℕ → ℕ → Bool
plus_misplaced topic last i =
    (ltb i (last - 1) && differs (get_elem? topic (i + 1)) slash)
    || (ltb 1 i && differs (get_elem? topic (i - 1)) slash)

-- The loop of `validateTopic`: `i` is the index of the head of the last argument.
scan : Verb → Text → ℕ → Bool → ℕ → Text → Option Error
scan message topic last slash_in_pre_end i [] = none
scan message topic last slash_in_pre_end i (c ∷ cs) =
    let rest = scan message topic last slash_in_pre_end (i + 1) cs in
    if c == hash
    then (if hash_misplaced last slash_in_pre_end i then some (hash_position message) else rest)
    else if c == plus
    then (if plus_misplaced topic last i then some (plus_position message) else rest)
    else rest

-- What `validateTopic` does once the topic is known to be not empty. Here `-` is truncated: for a
-- topic of one character `end - 1` is -1 in the code and 0 here, and the tests on it agree.
validate_text : Verb → Text → ℕ → Option Error
unfolding scan topic_level_count hash_misplaced plus_misplaced
validate_text message topic max_topic_levels =
    let last = length topic - 1 in
    let end_minus = last - 1 in
    let slash_in_pre_end = ltb 0 end_minus && differs (get_elem? topic end_minus) slash in
    if ltb 0 max_topic_levels && ltb max_topic_levels (topic_level_count (some topic))
    then some too_many_levels
    else scan message topic last slash_in_pre_end 0 topic

-- `none` as a topic is `undefined`; as a result it is that no error is returned.
unfoldable pub validate_topic : Option Text → Verb → ℕ → Option Error
unfolding validate_text
validate_topic none message max_topic_levels = some (empty_topic message)
validate_topic (some []) message max_topic_levels = some (empty_topic message)
validate_topic (some (c ∷ cs)) message max_topic_levels =
    validate_text message (c ∷ cs) max_topic_levels
