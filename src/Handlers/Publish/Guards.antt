-- ===== src/Handlers/Publish/Guards.antt =====
-- Which PUBLISH packets are refused before anything is done (lib/handlers/publish.js).
use aedes.Common.{
  ℕ, ◌≤◌, ◌≡◌, refl, ◌≢◌, ◌⊎◌, inl, inr, ◌==◌, true, false, [], ◌∷◌, some, Text, All, any, length,
  ltb, arith, Bool-cases,
}
use aedes.Errors.{Error, empty_publish_topic, hash_in_publish, plus_in_publish, too_many_levels}
use aedes.Run.{fail, pure, ◌>>◌, run_series}
use aedes.Topic.{topic_level_count, hash, plus}
use aedes.Topic.Levels.{split, topic_level_count-split}
use aedes.Packet.{Packet}
use aedes.World.{World, Host}
use aedes.Handlers.Publish.{publish_actions, handle_publish}

-- A topic to which one can publish: not empty, without wildcards, of no more levels than allowed.
pub record IsPublishable (limit : ℕ) (t : Text) : Type 0 where
  pub full : t ≢ []
  pub plain : All (λ x. (x ≢ hash) × (x ≢ plus)) t
  pub shallow : length (split t) ≤ limit

no_code : (code : ℕ) (t : Text) → any (λ x. x == code) t ≡ false → All (λ x. x ≢ code) t
no_code code [] e = tt
no_code code (x ∷ t) e = ground (arith, no_code code t)

some_code : (code : ℕ) (t : Text) → any (λ x. x == code) t ≡ true → ¬ All (λ x. x ≢ code) t
some_code code [] e all = cc
some_code code (x ∷ t) e all = ground (arith, some_code code t)

both_plain :
    (t : Text)
    → All (λ x. x ≢ hash) t
    → All (λ x. x ≢ plus) t
    → All (λ x. (x ≢ hash) × (x ≢ plus)) t
both_plain [] a b = tt
both_plain (x ∷ t) a b = ((a.0, b.0), both_plain t a.1 b.1)

split_plain :
    (t : Text)
    → All (λ x. (x ≢ hash) × (x ≢ plus)) t
    → All (λ x. x ≢ hash) t × All (λ x. x ≢ plus) t
split_plain [] a = (tt, tt)
split_plain (x ∷ t) a = let (l, r) = split_plain t a.1 in ((a.0.0, l), (a.0.1, r))

empty_of : (t : Text) → (length t == 0) ≡ true → t ≡ []
empty_of [] e = refl
empty_of (x ∷ t) e = ground arith

not_empty : (t : Text) → (length t == 0) ≡ false → t ≢ []
not_empty [] e = cc
not_empty (x ∷ t) e = λ q. cc

deep :
    (limit : ℕ) (t : Text)
    → ltb limit (topic_level_count (some t)) ≡ true
    → ¬ (length (split t) ≤ limit)
deep limit t e q = let count = (topic_level_count-split t).0 in ground arith

not_deep :
    (limit : ℕ) (t : Text)
    → ltb limit (topic_level_count (some t)) ≡ false
    → length (split t) ≤ limit
not_deep limit t e = let count = (topic_level_count-split t).0 in ground arith

module _ {O : Type 0} (h : Host O) (c : ℕ) (p : Packet) (w : World O) where
  -- A PUBLISH to a topic that is not publishable ends with one of four errors and changes nothing:
  -- it is not acknowledged, not stored and not published. Any other PUBLISH goes on to the hook
  -- `authorizePublish` and the steps behind it.
  pub handle_publish_guards :
      (IsPublishable w.broker.max_topic_levels p.topic
        × (handle_publish h c p w ≡ (run_series (publish_actions h c) p >> pure tt) w))
      ⊎ ((¬ IsPublishable w.broker.max_topic_levels p.topic)
          × ((e : Error) × (handle_publish h c p w ≡ (fail e, w))
              × (((e ≡ empty_publish_topic) ⊎ (e ≡ hash_in_publish))
                  ⊎ ((e ≡ plus_in_publish) ⊎ (e ≡ too_many_levels)))))
  unfolding handle_publish
  handle_publish_guards = elim (Bool-cases (length p.topic == 0)) [
    | inl e ↦ inr (λ q. q.full (empty_of p.topic e), (empty_publish_topic, rw e, inl (inl refl)))
    | inr e1 ↦ elim (Bool-cases (any (λ x. x == hash) p.topic)) [
      | inl e ↦ inr (
        λ q. some_code hash p.topic e (split_plain p.topic q.plain).0,
        (hash_in_publish, rw (e1, e), inl (inr refl)),
      )
      | inr e2 ↦ elim (Bool-cases (any (λ x. x == plus) p.topic)) [
        | inl e ↦ inr (
          λ q. some_code plus p.topic e (split_plain p.topic q.plain).1,
          (plus_in_publish, rw (e1, e2, e), inr (inl refl)),
        )
        | inr e3 ↦
            elim (Bool-cases (ltb w.broker.max_topic_levels (topic_level_count (some p.topic)))) [
              | inl e ↦ inr (
                λ q. deep w.broker.max_topic_levels p.topic e q.shallow,
                (too_many_levels, rw (e1, e2, e3, e), inr (inr refl)),
              )
              | inr e4 ↦ inl (
                record {
                  full = not_empty p.topic e1;
                  plain = both_plain p.topic (no_code hash p.topic e2) (no_code plus p.topic e3);
                  shallow = not_deep w.broker.max_topic_levels p.topic e4;
                },
                rw (e1, e2, e3, e4),
              )
            ]
      ]
    ]
  ]
