-- ===== src/Topic/Conformance.antt =====
-- `validateTopic` of lib/utils.js against the rules of MQTT for topic filters ([MQTT-4.7.1-2] and
-- [MQTT-4.7.1-3]): a wildcard fills its level, and '#' is the last level.
use aedes.Common.{
  ℕ, suc, ◌+◌, ◌-◌, ◌≤◌, ◌<◌, ◌≡◌, refl, ◌≢◌, ◌⊎◌, inl, inr, [], ◌∷◌, none, some, Text, length,
  get_elem?, arith,
}
use aedes.Errors.{Verb}
use aedes.Topic.{slash, hash, plus, topic_level_count, validate_topic}
use aedes.Topic.Validation.{HashIsPlaced, PlusIsPlaced, IsPlaced, validate_topic_iff}

-- The level of the character at `i` begins there; it ends there.
abbrev pub BeginsLevel : Text → ℕ → Type 0
BeginsLevel t i = (i ≡ 0) ⊎ ((0 < i) × (get_elem? t (i - 1) ≡ some slash))

abbrev pub EndsLevel : Text → ℕ → Type 0
EndsLevel t i = (suc i ≡ length t) ⊎ (get_elem? t (suc i) ≡ some slash)

abbrev pub IsConformant : Text → Type 0
IsConformant t =
    (i : ℕ)
    → (get_elem? t i ≡ some hash → BeginsLevel t i × (suc i ≡ length t))
      × (get_elem? t i ≡ some plus → BeginsLevel t i × EndsLevel t i)

hash_placed : (t : Text) (i : ℕ) → BeginsLevel t i → suc i ≡ length t → HashIsPlaced t i
hash_placed t i (inl e) last = (last, inl (omega arith))
hash_placed t i (inr (h, e)) last =
    (last, inr (let same : length t - 2 ≡ i - 1 = omega arith in rw same e))

plus_placed : (t : Text) (i : ℕ) → BeginsLevel t i → EndsLevel t i → PlusIsPlaced t i
plus_placed t i begins ends = (behind ends, before begins)
  where
    behind : EndsLevel t i → i + 2 < length t → get_elem? t (suc i) ≡ some slash
    behind (inl e) h = absurd (omega arith)
    behind (inr e) h = e

    before : BeginsLevel t i → 1 < i → get_elem? t (i - 1) ≡ some slash
    before (inl e) h = absurd (omega arith)
    before (inr (p, e)) h = e

IsConformant-IsPlaced : (t : Text) → IsConformant t → IsPlaced t
IsConformant-IsPlaced t c i = (
  λ q. let (begins, last) = (c i).0 q in hash_placed t i begins last,
  λ q. let (begins, ends) = (c i).1 q in plus_placed t i begins ends,
)

-- Every topic filter that MQTT allows is let through, if it is not empty and has no more levels
-- than the limit.
pub validate_topic-IsConformant :
    (t : Text) (m : Verb) (limit : ℕ)
    → t ≢ []
    → topic_level_count (some t) ≤ limit
    → IsConformant t
    → validate_topic (some t) m limit ≡ none
validate_topic-IsConformant t m limit full levels c =
    (validate_topic_iff (some t) m limit).1 (t, refl, full, inr levels, IsConformant-IsPlaced t c)

-- A topic of two characters, of which the second is a wildcard and the first none and no slash, is
-- let through, though its wildcard does not fill its level.
pub short_wildcard_accepted :
    (c w : ℕ) (m : Verb) (limit : ℕ)
    → c ≢ slash
    → c ≢ hash
    → c ≢ plus
    → (w ≡ hash) ⊎ (w ≡ plus)
    → 0 < limit
    → (validate_topic (some (c ∷ w ∷ [])) m limit ≡ none) × ¬ IsConformant (c ∷ w ∷ [])
unfolding validate_topic
short_wildcard_accepted c w m limit h1 h2 h3 (inl e) h5 =
    (ground arith, λ f. ground (arith, (f 1).0 (rw e)))
short_wildcard_accepted c w m limit h1 h2 h3 (inr e) h5 =
    (ground arith, λ f. ground (arith, (f 1).1 (rw e)))
