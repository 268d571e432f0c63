-- ===== src/Topic/Validation.antt =====
-- Which topic filters `validateTopic` of lib/utils.js lets through.
use aedes.Common.{
  ℕ, zero, suc, ◌+◌, ◌-◌, ◌≤◌, ◌<◌, ◌≡◌, refl, ap, sym, ◌∙◌, ◌≢◌, ◌↔◌, ◌⊎◌, Bool, false, ◌&&◌, [],
  ◌∷◌, Option, none, some, Text, length, get_elem?, some_inj, ltb, arith,
}
use mathlib.Core.Path.{subst}
use native.Mathlib.Numerals.{add-one}
use native.Mathlib.Nat.{zero-add}
use aedes.Errors.{Verb, Error}
use aedes.Topic.{
  slash, hash, plus, differs, hash_misplaced, plus_misplaced, scan, topic_level_count,
  validate_text, validate_topic,
}

-- A '#' stands last, and behind a slash if two characters or more stand before it.
abbrev pub HashIsPlaced : Text → ℕ → Type 0
HashIsPlaced t i = (suc i ≡ length t) × ((length t ≤ 2) ⊎ (get_elem? t (length t - 2) ≡ some slash))

-- A '+' has a slash behind it, unless it is one of the last two characters, and one before it,
-- unless it is one of the first two.
abbrev pub PlusIsPlaced : Text → ℕ → Type 0
PlusIsPlaced t i =
    (i + 2 < length t → get_elem? t (suc i) ≡ some slash)
    × (1 < i → get_elem? t (i - 1) ≡ some slash)

abbrev pub IsPlaced : Text → Type 0
IsPlaced t =
    (i : ℕ)
    → (get_elem? t i ≡ some hash → HashIsPlaced t i)
      × (get_elem? t i ≡ some plus → PlusIsPlaced t i)

differs_iff : (o : Option ℕ) (code : ℕ) → (differs o code ≡ false) ↔ (o ≡ some code)
differs_iff none code = (λ e. cc, λ e. cc)
differs_iff (some c) code = ground arith

abbrev pre_end : Text → Bool
pre_end t = ltb 0 (length t - 1 - 1) && differs (get_elem? t (length t - 1 - 1)) slash

show_pre_end :
    (t : Text) → pre_end t ≡ (ltb 2 (length t) && differs (get_elem? t (length t - 2)) slash)
show_pre_end t = let e : length t - 1 - 1 ≡ length t - 2 = omega arith in rw e (ground arith)

hash_misplaced_iff :
    (t : Text) (i : ℕ)
    → 0 < length t
    → (hash_misplaced (length t - 1) (pre_end t) i ≡ false) ↔ HashIsPlaced t i
unfolding hash_misplaced
hash_misplaced_iff t i h =
    rw (show_pre_end t) (ground (arith, differs_iff (get_elem? t (length t - 2)) slash))

plus_misplaced_iff :
    (t : Text) (i : ℕ)
    → 0 < length t
    → (plus_misplaced t (length t - 1) i ≡ false) ↔ PlusIsPlaced t i
unfolding plus_misplaced
plus_misplaced_iff t i h = rw add-one (
    ground
      (arith, differs_iff (get_elem? t (suc i)) slash, differs_iff (get_elem? t (i - 1)) slash))

-- What the loop asks of the character `c` at the index `i`.
abbrev Fits : Text → ℕ → ℕ → Type 0
Fits t i c = (c ≡ hash → HashIsPlaced t i) × (c ≡ plus → PlusIsPlaced t i)

module _ (m : Verb) (t : Text) where
  abbrev scan_from : ℕ → Text → Option Error
  scan_from i cs = scan m t (length t - 1) (pre_end t) i cs

  head-Fits :
      (i c : ℕ) (cs : Text)
      → 0 < length t
      → (scan_from i (c ∷ cs) ≡ none) ↔ (Fits t i c × (scan_from (i + 1) cs ≡ none))
  unfolding scan
  head-Fits i c cs h = ground (arith, hash_misplaced_iff t i h, plus_misplaced_iff t i h)

  Fits-cons :
      (i c : ℕ) (cs : Text)
      → Fits t i c
      → ((j d : ℕ) → get_elem? cs j ≡ some d → Fits t (i + 1 + j) d)
      → (j d : ℕ) → get_elem? (c ∷ cs) j ≡ some d
      → Fits t (i + j) d
  Fits-cons i c cs here later zero d q =
      let e : i + 0 ≡ i = omega arith in rw e (let same : c ≡ d = some_inj q in rw (← same) here)
  Fits-cons i c cs here later (suc j) d q =
      let e : i + suc j ≡ i + 1 + j = omega arith in rw e (later j d q)

  scan_iff :
      (i : ℕ) (cs : Text)
      → 0 < length t
      → (scan_from i cs ≡ none) ↔ ((j c : ℕ) → get_elem? cs j ≡ some c → Fits t (i + j) c)
  scan_iff i [] h = (λ _ j c e. cc, λ _. unfold scan in refl)
  scan_iff i (c ∷ cs) h = (
    λ e.
        let (here, later) = (head-Fits i c cs h).0 e in
        Fits-cons i c cs here ((scan_iff (i + 1) cs h).0 later),
    λ all. (head-Fits i c cs h).1 (
      (let e : i + 0 ≡ i = omega arith in rw e at (all 0 c refl)),
      (scan_iff (i + 1) cs h).1
          λ j d q. let e : i + suc j ≡ i + 1 + j = omega arith in rw e at (all (suc j) d q),
    ),
  )

-- The characters fit at their indices exactly when the wildcards are placed.
IsPlaced-iff : (t : Text) → ((j c : ℕ) → get_elem? t j ≡ some c → Fits t (0 + j) c) ↔ IsPlaced t
IsPlaced-iff t = (
  λ fits i. (
    λ q. (rw (zero-add i) at (fits i hash q)).0 refl,
    λ q. (rw (zero-add i) at (fits i plus q)).1 refl,
  ),
  λ placed j c q.
      rw (zero-add j) (λ e. (placed j).0 (q ∙ ap some e), λ e. (placed j).1 (q ∙ ap some e)),
)

validate_text_iff :
    (m : Verb) (t : Text) (limit : ℕ)
    → 0 < length t
    → (validate_text m t limit ≡ none)
      ↔ (((limit ≡ 0) ⊎ (topic_level_count (some t) ≤ limit)) × IsPlaced t)
unfolding validate_text
validate_text_iff m t limit h =
    let (to, from) = scan_iff m t 0 t h in
    let (spread, gather) = IsPlaced-iff t in
    (
      λ e. (ground arith, spread (to (ground arith))),
      λ ok. let e = from (gather ok.1) in ground arith,
    )

-- `validateTopic` lets a topic through exactly when it is a text that is not empty, has no more
-- levels than the limit (if the limit is not 0), and has each '#' and '+' where `HashIsPlaced` and
-- `PlusIsPlaced` allow it.
pub validate_topic_iff :
    (topic : Option Text) (m : Verb) (limit : ℕ)
    → (validate_topic topic m limit ≡ none) ↔ (
        (t : Text) × (topic ≡ some t)
        × (t ≢ [])
        × ((limit ≡ 0) ⊎ (topic_level_count (some t) ≤ limit))
        × IsPlaced t)
unfolding validate_topic
validate_topic_iff none m limit = (λ e. cc, λ p. let e = p.1 in cc)
validate_topic_iff (some []) m limit = (λ e. cc, λ p. absurd (p.2 (sym (some_inj p.1))))
validate_topic_iff (some (c ∷ cs)) m limit =
    let (to, from) = validate_text_iff m (c ∷ cs) limit (omega arith) in
    (
      λ e. let (levels, placed) = to e in (c ∷ cs, refl, (λ q. cc), levels, placed),
      λ p.
          let e : p.0 ≡ c ∷ cs = sym (some_inj p.1) in
          from (
            subst (λ t. ((limit ≡ 0) ⊎ (topic_level_count (some t) ≤ limit)) × IsPlaced t) e
              (p.3, p.4)),
    )
