-- ===== src/Broker/Publishing/Exact.antt =====
-- How often `publish` of aedes.js gives a packet to the message queue, where the code outside
-- serves it (Serves).
use mathlib.Core.Path.{subst}
use aedes.Common.{
  ℕ, suc, ◌≡◌, refl, sym, ap, ◌∙◌, Bool, true, false, List, [], ◌∷◌, Option, some, Text,
  starts_with, ltb, if◌then◌else◌, if_both, if_false, arith,
}
use aedes.Run.{Outcome, done, M, pure, run_series}
use aedes.Run.Laws.{after_done, settle_done}
use aedes.Topic.{topic_level_count}
use aedes.Packet.{Packet}
use aedes.World.{
  World, Host, asks_store_retained, asks_mq_emit, asks_subscriptions_by_topic, asks_enqueue_combi,
  requested,
}
use aedes.World.Steps.{note, request}
use aedes.Delivery.{KeepsIncoming, Serves, IsSteady}
use aedes.Delivery.Rules.{At, set-At, bind-At, call_back-At}
use aedes.Broker.Publishing.{
  sys_prefix, remove_sharp, keep, store_retained, stamp, emit_packet, enqueue_offline,
  call_published, publish_funcs_simple, publish_funcs_qos, publish,
}
use aedes.Broker.Publishing.Emission.{
  then_pure-At, store_retained-At, enqueue_offline-At, published_last-At,
}

module _ {O : Type 0} (c : ℕ) (stored : Option Text → Option ℕ → O → Type 0) (id : Option Text)
    (m : Option ℕ) (h : Host O) (laws : KeepsIncoming h stored id m) (serves : Serves h stored id m)
    (steady : IsSteady h c) where
  -- Exactly `k` packets were given to the message queue.
  abbrev pub Exactly : ℕ → Bool → World O → Type 0
  Exactly k b w = At c stored id m k k b w

  retained-done : (p : Packet) (w : World O) → (store_retained h (some c) p w).0 ≡ done p
  unfolding store_retained
  retained-done p w =
      if_both {A = M (World O) Packet} (λ f. (f w).0 ≡ done p) p.retain
        (ap (λ r. r.0)
          (after_done {B = Packet} (λ _. pure p)
            (request h (some c) (asks_store_retained p) (h.store_retained p) w) tt
            (serves.retains p w.outside)))
        refl

  offline-done : (p : Packet) (w : World O) → (enqueue_offline h (some c) p w).0 ≡ done p
  unfolding enqueue_offline
  offline-done p w =
      let (subs, listed) = serves.lists p.topic w.outside in
      let subs' = if starts_with sys_prefix p.topic then keep remove_sharp subs else subs in
      let r =
        request h (some c) (asks_subscriptions_by_topic p.topic) (h.subscriptions_by_topic p.topic)
          w in
      ap (λ x. x.0) (settle_done _ _ r subs listed)
      ∙ ap (λ x. x.0)
          (after_done {B = Packet} (λ _. pure p)
            (request h (some c) (asks_enqueue_combi p) (h.enqueue_combi subs' p) r.1) tt
            (serves.enqueues subs' p r.1.outside))

  -- The emission raises both bounds.
  emit_packet-Exactly :
      (k : ℕ) (b : Bool) (p : Packet) (w : World O)
      → Exactly k b w
      → Exactly (suc k) b (emit_packet h (some c) p w).1
  unfolding emit_packet stamp
  emit_packet-Exactly k b p w a =
      let p' = stamp h (some c) (some c) w p in
      then_pure-At c stored id m (suc k) h laws steady (suc k) b p'
        (request h (some c) (asks_mq_emit p') (h.mq_emit p') w)
        (call_back-At c stored id m (suc k) h laws steady
          (note (some c) (requested (asks_mq_emit p')) w) (h.mq_emit p' w.outside)
          (laws.keep_emit p' w.outside)
          (set-At c stored id m (suc k) _ w
            (record { owner = a.owner; least = omega arith; few = omega arith; kept = a.kept })))

  emitted_last-Exactly :
      (k : ℕ) (b : Bool) (original p : Packet) (w : World O)
      → Exactly k b w
      → Exactly
          (suc k)
          b
          (run_series (emit_packet h (some c) ∷ call_published h (some c) original ∷ []) p w).1
  unfolding run_series
  emitted_last-Exactly k b original p w a =
      bind-At c stored id m (suc k) (Exactly (suc k) b) (Exactly (suc k) b) _
        (emit_packet h (some c) p w) (emit_packet-Exactly k b p w a) (λ w' q. q)
        (λ p' w' e q.
          published_last-At c stored id m (suc k) h laws steady (suc k) b original p' w' q)

  -- What is left after a step that hands the packet on, which keeps the count.
  next-Exactly :
      (k : ℕ) (b : Bool) (f : Packet → M (World O) Packet) (fs : List (Packet → M (World O) Packet))
      (p : Packet) (w : World O)
      → (f p w).0 ≡ done p
      → Exactly k b (run_series fs p (f p w).1).1
      → Exactly k b (run_series (f ∷ fs) p w).1
  unfolding run_series
  next-Exactly k b f fs p w ends a =
      subst (λ r. Exactly k b r.1) (sym (after_done (run_series fs) (f p w) p ends)) a

  publish_funcs-Exactly :
      (k : ℕ) (b qos : Bool) (original p : Packet) (w : World O)
      → Exactly k b w
      → Exactly
          (suc k)
          b
          (run_series
            (if qos
              then publish_funcs_qos h (some c) original
              else publish_funcs_simple h (some c) original)
            p
            w).1
  unfolding publish_funcs_qos publish_funcs_simple
  publish_funcs-Exactly k b true original p w a =
      let retain = store_retained h (some c) p w in
      let retained = store_retained-At c stored id m k h laws steady k b p w a in
      next-Exactly (suc k) b _ _ p w (retained-done p w) (
        next-Exactly (suc k) b _ _ p retain.1 (offline-done p retain.1) (
          emitted_last-Exactly k b original p _
            (enqueue_offline-At c stored id m k h laws steady k b p retain.1 retained)))
  publish_funcs-Exactly k b false original p w a =
      next-Exactly (suc k) b _ _ p w (retained-done p w) (
        emitted_last-Exactly k b original p _
          (store_retained-At c stored id m k h laws steady k b p w a))

  -- A packet whose topic has no more levels than allowed is given to the message queue once.
  pub publish-Exactly :
      (k : ℕ) (b : Bool) (packet : Packet) (w : World O)
      → ltb w.broker.max_topic_levels (topic_level_count (some packet.topic)) ≡ false
      → Exactly k b w
      → Exactly (suc k) b (publish h (some c) packet w).1
  unfolding publish
  publish-Exactly k b packet w shallow a =
      let made = h.new_packet packet w.broker.id w.broker.counter in
      let w' : World O = record w { broker = record (w.broker) { counter = made.1 } } in
      subst (λ (r : Outcome (Unit {0}) × World O). Exactly (suc k) b r.1)
        (sym (if_false _ _ _ shallow))
        (then_pure-At c stored id m (suc k) h laws steady (suc k) b tt _
          (publish_funcs-Exactly k b (ltb 0 made.0.qos) packet made.0 w' a))
