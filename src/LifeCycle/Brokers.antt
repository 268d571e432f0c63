-- ===== src/LifeCycle/Brokers.antt =====
-- What a broker knows of the others (aedes.js).
use aedes.Common.{
  ℕ, ◌+◌, ◌*◌, ◌≤◌, ◌<◌, ◌≡◌, refl, true, false, List, [], ◌∷◌, Option, none, some, Text, text_eq,
  text_eq_iff, text_eq_refl, any, ltb, ◌==◌, if◌then◌else◌, Bool-cases, inl, inr, ◌⊎◌, arith,
}
use aedes.Dict.{Dict, get, remove, is_inherited}
use aedes.Dict.Laws.{get-remove}
use aedes.Packet.{Packet}
use aedes.World.{Client, World}
use aedes.World.Steps.{update}
use aedes.Session.Duplicates.{dedupe, dedupe_iff}
use aedes.LifeCycle.{
  Options, max_topic_levels_ceiling, new_broker, delete_old_brokers, forget_duplicates, broker_born,
}

-- The limit on topic levels of a new broker lies between 1 and 100: it is that of the options, or 1
-- where that is 0, or 100 where that is more.
max_topic_levels-new_broker :
    (opts : Options) (uuid : Text)
    → let levels = (new_broker opts uuid).max_topic_levels in
      (1 ≤ levels)
      × (levels ≤ max_topic_levels_ceiling)
      × ((levels ≡ opts.max_topic_levels)
          ⊎ ((opts.max_topic_levels ≡ 0) × (levels ≡ 1))
          ⊎ ((max_topic_levels_ceiling < opts.max_topic_levels) × (levels ≡ 100)))
unfolding new_broker
max_topic_levels-new_broker opts uuid = (omega arith, omega arith, ground arith)

-- No two entries of an object have one key.
abbrev pub AreDistinct : Dict ℕ → Type 0
AreDistinct [] = Unit {0}
AreDistinct ((k, _) ∷ d) = (get k d ≡ none) × AreDistinct d

abbrev pub unless_old : ℕ → ℕ → Option ℕ → Option ℕ
unless_old interval now none = none
unless_old interval now (some last) = if ltb (last + 3 * interval) now then none else some last

-- In an object without two entries of one key, the brokers that are deleted are exactly those that
-- were not heard in the last three intervals.
pub get-delete_old_brokers :
    (interval now : ℕ) (id : Text) (brokers : Dict ℕ)
    → AreDistinct brokers
    → get id (delete_old_brokers interval now brokers) ≡ unless_old interval now (get id brokers)
unfolding get delete_old_brokers
get-delete_old_brokers interval now id [] d = refl
get-delete_old_brokers interval now id ((k, last) ∷ brokers) d =
    ground (arith, get-delete_old_brokers interval now id brokers d.1, text_eq_iff k id, d.0)

module _ (id : Text) where
  Forgets : (heap : ℕ → Client) (c : ℕ) → Type 0
  Forgets heap c = get id (heap c).duplicates ≡ none

  forget_one :
      (heap : ℕ → Client) (c i : ℕ)
      → Forgets heap i
      → Forgets (update heap c (record (heap c) { duplicates = remove id (heap c).duplicates })) i
  unfolding Forgets
  forget_one heap c i e = ground (arith, get-remove id id (heap c).duplicates, text_eq_refl id)

  forget_duplicates_kept :
      (clients : List (Text × ℕ)) (heap : ℕ → Client) (i : ℕ)
      → Forgets heap i
      → Forgets (forget_duplicates id clients heap) i
  unfolding forget_duplicates
  forget_duplicates_kept [] heap i e = e
  forget_duplicates_kept ((_, c) ∷ clients) heap i e =
      forget_duplicates_kept clients _ i (forget_one heap c i e)

  forget_duplicates-Forgets :
      (clients : List (Text × ℕ)) (heap : ℕ → Client) (i : ℕ)
      → any (λ p. p.1 == i) clients ≡ true
      → Forgets (forget_duplicates id clients heap) i
  unfolding forget_duplicates
  forget_duplicates-Forgets [] heap i e = cc
  forget_duplicates-Forgets ((_, c) ∷ clients) heap i e = elim (Bool-cases (c == i)) [
    | inl same ↦
        forget_duplicates_kept clients _ i
          (unfold Forgets in ground (arith, get-remove id id (heap c).duplicates, text_eq_refl id))
    | inr other ↦ forget_duplicates-Forgets clients _ i (ground arith)
  ]

-- After another broker announced its birth, dedupe lets through to every registered client a packet
-- of this broker with a positive counter, if the broker's id is not empty and no name of
-- Object.prototype.
pub broker_born-dedupe :
    {O : Type 0} (x : ℕ) (xs : Text) (c : ℕ) (p : Packet) (w : World O)
    → text_eq (x ∷ xs) w.broker.id ≡ false
    → is_inherited (x ∷ xs) ≡ false
    → any (λ q. q.1 == c) w.broker.clients ≡ true
    → p.broker_id ≡ some (x ∷ xs)
    → 0 < p.broker_counter
    → (dedupe ((broker_born (x ∷ xs) w).clients c) p).0 ≡ true
unfolding broker_born Forgets
broker_born-dedupe x xs c p w other plain registered from positive =
    let gone = forget_duplicates-Forgets (x ∷ xs) w.broker.clients w.clients c registered in
    let client = forget_duplicates (x ∷ xs) w.broker.clients w.clients c in
    rw other ((dedupe_iff x xs client p from plain).1 (rw gone positive))
