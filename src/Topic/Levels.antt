-- ===== src/Topic/Levels.antt =====
-- The level count of lib/utils.js against the text split at each '/'.
use aedes.Common.{
  ℕ, ◌+◌, ◌≡◌, refl, ap, List, [], ◌∷◌, ◌++◌, some, Text, length, ◌==◌, ==_iff, Bool-cases,
  if◌then◌else◌, arith, inl, inr, sym, ◌≢◌, All,
}
use aedes.Topic.{slash, levels_from, topic_level_count}

-- A character goes in front of the first level.
abbrev extend_first : ℕ → List Text → List Text
extend_first c [] = (c ∷ []) ∷ []
extend_first c (l ∷ ls) = (c ∷ l) ∷ ls

-- `topic.split('/')`: the levels between the slashes.
unfoldable pub split : Text → List Text
split [] = [] ∷ []
split (c ∷ cs) = let rest = split cs in if c == slash then [] ∷ rest else extend_first c rest

-- `levels.join('/')`.
unfoldable pub join : List Text → Text
join [] = []
join (l ∷ []) = l
join (l ∷ m ∷ ms) = l ++ (slash ∷ join (m ∷ ms))

split_shape : (t : Text) → (l : Text) × (ls : List Text) × (split t ≡ l ∷ ls)
unfolding split
split_shape [] = ([], [], refl)
split_shape (c ∷ cs) =
    let (l, ls, e) = split_shape cs in
    elim (Bool-cases (c == slash)) [ inl h ↦ ([], split cs, rw h) | inr h ↦ (c ∷ l, ls, rw (h, e)) ]

length-extend_first : (c : ℕ) (ls : List Text) → ls ≢ [] → length (extend_first c ls) ≡ length ls
length-extend_first c [] h = absurd (h refl)
length-extend_first c (l ∷ ls) h = refl

split-ne-nil : (t : Text) → split t ≢ []
split-ne-nil t e = let (l, ls, shape) = split_shape t in cc

levels_from_lem : (n : ℕ) (t : Text) → levels_from n t + 1 ≡ n + length (split t)
unfolding levels_from split
levels_from_lem n [] = omega arith
levels_from_lem n (c ∷ cs) = ground (
  arith,
  levels_from_lem (n + 1) cs,
  levels_from_lem n cs,
  length-extend_first c (split cs) (split-ne-nil cs),
)

join-extend_first : (c : ℕ) (ls : List Text) → ls ≢ [] → join (extend_first c ls) ≡ c ∷ join ls
unfolding join
join-extend_first c [] h = absurd (h refl)
join-extend_first c (l ∷ []) h = refl
join-extend_first c (l ∷ m ∷ ms) h = refl

join_nil_first : (ls : List Text) → ls ≢ [] → join ([] ∷ ls) ≡ slash ∷ join ls
unfolding join
join_nil_first [] h = absurd (h refl)
join_nil_first (l ∷ ls) h = refl

-- Joining the levels again gives the text, so `split` loses nothing.
pub join-split : (t : Text) → join (split t) ≡ t
unfolding split
join-split [] = unfold join in refl
join-split (c ∷ cs) = elim (Bool-cases (c == slash)) [
  | inl h ↦
      rw (h, join_nil_first (split cs) (split-ne-nil cs), join-split cs)
        (ap (λ (x : ℕ). x ∷ cs) (sym ((==_iff c slash).0 h)))
  | inr h ↦ rw (h, join-extend_first c (split cs) (split-ne-nil cs)) (ap (◌∷◌ c) (join-split cs))
]

-- No level holds a slash.
pub split-All_levels : (t : Text) → All (All (λ c. c ≢ slash)) (split t)
unfolding split
split-All_levels [] = (tt, tt)
split-All_levels (c ∷ cs) =
    let (l, ls, e) = split_shape cs in
    let ih = split-All_levels cs in
    elim (Bool-cases (c == slash)) [
      | inl h ↦ rw h (tt, ih)
      | inr h ↦ let parts = rw e at ih in rw (h, e) ((λ q. ground arith, parts.0), parts.1)
    ]

-- The level count of a text is the number of the levels between its slashes: of the one list of
-- slash-free texts that gives the text back when it is joined by slashes.
pub topic_level_count-split :
    (t : Text)
    → (topic_level_count (some t) ≡ length (split t))
      × (join (split t) ≡ t)
      × All (All (λ c. c ≢ slash)) (split t)
unfolding topic_level_count
topic_level_count-split t = (omega (arith, levels_from_lem 1 t), join-split t, split-All_levels t)
