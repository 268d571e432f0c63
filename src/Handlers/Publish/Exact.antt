-- ===== src/Handlers/Publish/Exact.antt =====
-- The first PUBLISH of QoS 2 with a message id (lib/handlers/publish.js).
use mathlib.Core.Path.{subst}
use aedes.Common.{
  ℕ, suc, ◌≤◌, ◌≡◌, refl, sym, ap, ◌∙◌, Bool, true, false, [], ◌∷◌, Option, some, Text, ltb, inl,
  inr, arith, length,
}
use aedes.Run.{Outcome, done, fail, run_series}
use aedes.Run.Laws.{after_done, settle_fail}
use aedes.Topic.{topic_level_count}
use aedes.Topic.Levels.{split, topic_level_count-split}
use aedes.Packet.{Packet}
use aedes.World.{World, Host, asks_authorize_publish, asks_incoming_get, asks_incoming_store}
use aedes.World.Steps.{request}
use aedes.Write.Laws.{write-At}
use aedes.Delivery.{KeepsIncoming, Serves, IsSteady}
use aedes.Delivery.Rules.{bind-At, request-At}
use aedes.Broker.Publishing.{publish}
use aedes.Broker.Publishing.Emission.{then_pure-At}
use aedes.Broker.Publishing.Exact.{Exactly, publish-Exactly}
use aedes.Handlers.Publish.{
  pub_rec, authorize_publish, publish_new, publish_qos2, enqueue_publish, publish_actions,
  handle_publish,
}
use aedes.Handlers.Publish.Guards.{IsPublishable, handle_publish_guards}
use aedes.Handlers.Publish.Once.{get-At, store-At, enqueue-qos2}

within_limit :
    (limit : ℕ) (t : Text)
    → length (split t) ≤ limit
    → ltb limit (topic_level_count (some t)) ≡ false
within_limit limit t shallow = let count = (topic_level_count-split t).0 in ground arith

module _ {O : Type 0} (c : ℕ) (stored : Option Text → Option ℕ → O → Type 0) (id : Option Text)
    (m : Option ℕ) (h : Host O) (laws : KeepsIncoming h stored id m) (serves : Serves h stored id m)
    (steady : IsSteady h c) where
  abbrev Is : ℕ → Bool → World O → Type 0
  Is k b w = Exactly c stored id m h laws serves steady k b w

  -- The client's packet is not in the store, and its topic is within the limit.
  abbrev IsNew : Text → World O → Type 0
  IsNew t w =
      (¬ stored id m w.outside)
      × (ltb w.broker.max_topic_levels (topic_level_count (some t)) ≡ false)

  publish_new-Exactly :
      (k : ℕ) (p : Packet) (w : World O)
      → p.message_id ≡ m
      → ltb w.broker.max_topic_levels (topic_level_count (some p.topic)) ≡ false
      → Is k false w
      → Is (suc k) true (publish_new h c p w).1
  unfolding publish_new
  publish_new-Exactly k p w same shallow a =
      let r = request h (some c) (asks_incoming_store p) (h.incoming_store (w.clients c).id p) w in
      let taken : r.0 ≡ done tt =
        subst (λ i. (h.incoming_store i p w.outside).0 ≡ done tt) (sym a.owner)
          (serves.takes p w.outside same) in
      let there =
        store-At c stored id m k h laws steady k p w r.1 same a (ap (λ x. (x, r.1)) taken) in
      let shallow' : ltb r.1.broker.max_topic_levels (topic_level_count (some p.topic)) ≡ false =
        ap (λ n. ltb n (topic_level_count (some p.topic))) (serves.same_limit _) ∙ shallow in
      subst (λ (x : Outcome (Unit {0}) × World O). Is (suc k) true x.1)
        (sym (after_done _ r tt taken))
        (bind-At c stored id m (suc k) (Is (suc k) true) (Is (suc k) true) _
          (publish h (some c) p r.1)
          (publish-Exactly c stored id m h laws serves steady k true p r.1 shallow' there)
          (λ w' q. q) (λ _ w' e q. write-At c stored id m (suc k) h laws steady (pub_rec p) w' q))

  publish_qos2-Exactly :
      (k : ℕ) (p : Packet) (w : World O)
      → p.message_id ≡ m
      → IsNew p.topic w
      → Is k false w
      → Is (suc k) true (publish_qos2 h c p w).1
  unfolding publish_qos2
  publish_qos2-Exactly k p w same new a =
      let r = request h (some c) (asks_incoming_get p) (h.incoming_get (w.clients c).id p) w in
      let (e, missed) = serves.misses p w.outside same new.0 in
      let missed' : r.0 ≡ fail e =
        subst (λ i. (h.incoming_get i p w.outside).0 ≡ fail e) (sym a.owner) missed in
      subst (λ (x : Outcome (Unit {0}) × World O). Is (suc k) true x.1)
        (sym (settle_fail _ _ r e missed'))
        (publish_new-Exactly k p r.1 same
          (ap (λ n. ltb n (topic_level_count (some p.topic))) (serves.same_limit _) ∙ new.1)
          (get-At c stored id m k h laws steady k false p w a))

  enqueue_publish-Exactly :
      (k : ℕ) (p : Packet) (w : World O)
      → p.qos ≡ 2
      → p.message_id ≡ m
      → IsNew p.topic w
      → Is k false w
      → Is (suc k) true (run_series (enqueue_publish h c ∷ []) p w).1
  unfolding run_series
  enqueue_publish-Exactly k p w two same new a =
      let q : Is (suc k) true (enqueue_publish h c p w).1 =
        rw (enqueue-qos2 c stored id m (suc k) h laws steady p w (ground arith)) (
          then_pure-At c stored id m (suc k) h laws steady (suc k) true p (publish_qos2 h c p w)
            (publish_qos2-Exactly k p w same new a)) in
      bind-At c stored id m (suc k) (Is (suc k) true) (Is (suc k) true) _ (enqueue_publish h c p w)
        q (λ w' q'. q') (λ p' w' e q'. q')

  actions-Exactly :
      (k : ℕ) (p : Packet) (w : World O)
      → p.qos ≡ 2
      → p.message_id ≡ m
      → IsNew p.topic w
      → Is k false w
      → Is (suc k) true (run_series (publish_actions h c) p w).1
  unfolding publish_actions run_series authorize_publish
  actions-Exactly k p w two same new a =
      let (q, let_in, topic) = serves.lets (some c) p w.outside in
      let (qos', id') = laws.authorizes (some c) p q w.outside let_in in
      let r = request h (some c) (asks_authorize_publish p) (h.authorize_publish (some c) p) w in
      let still_new : IsNew q.topic r.1 = (
        λ st. new.0 (serves.new_authorize (some c) p w.outside (serves.new_meanwhile _ st)),
        ap (λ n. ltb n (topic_level_count (some q.topic))) (serves.same_limit _)
            ∙ ap (λ t. ltb w.broker.max_topic_levels (topic_level_count (some t))) topic
            ∙ new.1,
      ) in
      subst (λ (x : Outcome Packet × World O). Is (suc k) true x.1)
        (sym (after_done (run_series (enqueue_publish h c ∷ [])) r q let_in))
        (enqueue_publish-Exactly k q r.1 (qos' ∙ two) (id' ∙ same) still_new (
          request-At c stored id m k h laws steady _ (h.authorize_publish (some c) p) w (λ es. refl)
            (laws.keep_authorize (some c) p w.outside) a))

  -- A PUBLISH of QoS 2 with a topic to which one can publish, whose message id is not in the store,
  -- gives one packet to the message queue and is stored.
  pub handle_publish-Exactly :
      (k : ℕ) (p : Packet) (w : World O)
      → p.qos ≡ 2
      → p.message_id ≡ m
      → IsPublishable w.broker.max_topic_levels p.topic
      → (¬ stored id m w.outside)
      → Is k false w
      → Is (suc k) true (handle_publish h c p w).1
  handle_publish-Exactly k p w two same good new a = elim (handle_publish_guards h c p w) [
    | inl (_, runs) ↦
        subst (λ (x : Outcome (Unit {0}) × World O). Is (suc k) true x.1) (sym runs)
          (then_pure-At c stored id m (suc k) h laws steady (suc k) true tt _
            (actions-Exactly k p w two same (new, within_limit _ p.topic good.shallow) a))
    | inr (bad, _) ↦ absurd (bad good)
  ]
