-- ===== src/Broker/Publishing/Emission.antt =====
-- How often `publish` of aedes.js gives a packet to the message queue.
use aedes.Common.{
  ℕ, suc, refl, Bool, true, false, [], ◌∷◌, Option, some, Text, starts_with, ltb, if◌then◌else◌,
  if_both, arith,
}
use aedes.Run.{Outcome, pure, continue_with, run_series}
use aedes.Topic.{topic_level_count}
use aedes.Packet.{Packet}
use aedes.World.{
  World, Host, asks_store_retained, asks_mq_emit, asks_subscriptions_by_topic, asks_enqueue_combi,
  asks_published, requested, error_event, publish_event, emitted,
}
use aedes.World.Steps.{note, emit, request, call_back}
use aedes.Delivery.{KeepsIncoming, IsSteady}
use aedes.Delivery.Rules.{
  At, At-mono, note-At, note_emit-At, bind-At, settle-At, call_back-At, request-At,
}
use aedes.Broker.Publishing.{
  sys_prefix, remove_sharp, keep, store_retained, stamp, emit_packet, enqueue_offline,
  call_published, publish_funcs_simple, publish_funcs_qos, publish,
}

module _ {O : Type 0} (c : ℕ) (stored : Option Text → Option ℕ → O → Type 0) (id : Option Text)
    (m : Option ℕ) (j : ℕ) (h : Host O) (laws : KeepsIncoming h stored id m)
    (steady : IsSteady h c) where
  abbrev Is : ℕ → Bool → World O → Type 0
  Is k b w = At c stored id m j k b w

  pub then_pure-At :
      {A B : Type 0} (k : ℕ) (b : Bool) (p : B) (r : Outcome A × World O)
      → Is k b r.1
      → Is k b (continue_with (λ _. pure p) r).1
  then_pure-At k b p r a =
      bind-At c stored id m j (Is k b) (Is k b) (λ _. pure p) r a (λ w q. q) (λ _ w e q. q)

  pub store_retained-At :
      (k : ℕ) (b : Bool) (p : Packet) (w : World O)
      → Is k b w
      → Is k b (store_retained h (some c) p w).1
  unfolding store_retained
  store_retained-At k b p w a = ground (
    arith,
    then_pure-At k b p (request h (some c) (asks_store_retained p) (h.store_retained p) w) (
        request-At c stored id m j h laws steady (asks_store_retained p) (h.store_retained p) w
          (λ es. refl) (laws.keep_retained p w.outside) a),
  )

  emit_packet-At :
      (k : ℕ) (b : Bool) (p : Packet) (w : World O)
      → Is k b w
      → Is (suc k) b (emit_packet h (some c) p w).1
  unfolding emit_packet stamp
  emit_packet-At k b p w a =
      let p' = stamp h (some c) (some c) w p in
      then_pure-At (suc k) b p' (request h (some c) (asks_mq_emit p') (h.mq_emit p') w) (
        call_back-At c stored id m j h laws steady (note (some c) (requested (asks_mq_emit p')) w)
          (h.mq_emit p' w.outside) (laws.keep_emit p' w.outside)
          (note_emit-At c stored id m j p' w a))

  pub enqueue_offline-At :
      (k : ℕ) (b : Bool) (p : Packet) (w : World O)
      → Is k b w
      → Is k b (enqueue_offline h (some c) p w).1
  unfolding enqueue_offline
  enqueue_offline-At k b p w a =
      settle-At c stored id m j (Is k b) (Is k b) _ _
        (request h (some c) (asks_subscriptions_by_topic p.topic) (h.subscriptions_by_topic p.topic)
          w)
        (request-At c stored id m j h laws steady _ (h.subscriptions_by_topic p.topic) w
          (λ es. refl) (laws.keep_by_topic p.topic w.outside) a)
        (λ w' q. q)
        (λ subs w' e q.
          let subs' = if starts_with sys_prefix p.topic then keep remove_sharp subs else subs in
          then_pure-At k b p
            (request h (some c) (asks_enqueue_combi p) (h.enqueue_combi subs' p) w')
            (request-At c stored id m j h laws steady _ (h.enqueue_combi subs' p) w' (λ es. refl)
              (laws.keep_enqueue subs' p w'.outside) q))
        (λ e w' same q. note-At c stored id m j (emitted (error_event e)) w' (λ es. refl) q)

  call_published-At :
      (k : ℕ) (b : Bool) (original p : Packet) (w : World O)
      → Is k b w
      → Is k b (call_published h (some c) original p w).1
  unfolding call_published
  call_published-At k b original p w a =
      let w1 = note (some c) (requested (asks_published original)) w in
      let w2 = emit (some c) (publish_event original) w1 in
      then_pure-At k b p (call_back h (h.published original w2.outside) w2) (
        call_back-At c stored id m j h laws steady w2 (h.published original w2.outside)
          (laws.keep_published original w2.outside)
          (note-At c stored id m j (emitted (publish_event original)) w1 (λ es. refl)
            (note-At c stored id m j (requested (asks_published original)) w (λ es. refl) a)))

  -- What remains of a series once the packet was emitted, and from the emission on.
  pub published_last-At :
      (k : ℕ) (b : Bool) (original p : Packet) (w : World O)
      → Is k b w
      → Is k b (run_series (call_published h (some c) original ∷ []) p w).1
  unfolding run_series
  published_last-At k b original p w a =
      bind-At c stored id m j (Is k b) (Is k b) _ (call_published h (some c) original p w)
        (call_published-At k b original p w a) (λ w' q. q) (λ p' w' e q. q)

  emitted_last-At :
      (k : ℕ) (b : Bool) (original p : Packet) (w : World O)
      → Is k b w
      → Is
          (suc k)
          b
          (run_series (emit_packet h (some c) ∷ call_published h (some c) original ∷ []) p w).1
  unfolding run_series
  emitted_last-At k b original p w a =
      bind-At c stored id m j (Is (suc k) b) (Is (suc k) b) _ (emit_packet h (some c) p w)
        (emit_packet-At k b p w a) (λ w' q. q)
        (λ p' w' e q. published_last-At (suc k) b original p' w' q)

  offline_last-At :
      (k : ℕ) (b : Bool) (original p : Packet) (w : World O)
      → Is k b w
      → Is
          (suc k)
          b
          (run_series
            (enqueue_offline h (some c)
              ∷ emit_packet h (some c)
              ∷ call_published h (some c) original
              ∷ [])
            p
            w).1
  unfolding run_series
  offline_last-At k b original p w a =
      bind-At c stored id m j (Is k b) (Is (suc k) b) _ (enqueue_offline h (some c) p w)
        (enqueue_offline-At k b p w a) (λ w' q. At-mono c stored id m j w' (omega arith) q)
        (λ p' w' e q. emitted_last-At k b original p' w' q)

  publish_funcs-At :
      (k : ℕ) (b qos : Bool) (original p : Packet) (w : World O)
      → Is k b w
      → Is
          (suc k)
          b
          (run_series
            (if qos
              then publish_funcs_qos h (some c) original
              else publish_funcs_simple h (some c) original)
            p
            w).1
  unfolding publish_funcs_qos publish_funcs_simple run_series
  publish_funcs-At k b true original p w a =
      bind-At c stored id m j (Is k b) (Is (suc k) b) _ (store_retained h (some c) p w)
        (store_retained-At k b p w a) (λ w' q. At-mono c stored id m j w' (omega arith) q)
        (λ p' w' e q. offline_last-At k b original p' w' q)
  publish_funcs-At k b false original p w a =
      bind-At c stored id m j (Is k b) (Is (suc k) b) _ (store_retained h (some c) p w)
        (store_retained-At k b p w a) (λ w' q. At-mono c stored id m j w' (omega arith) q)
        (λ p' w' e q. emitted_last-At k b original p' w' q)

  -- Whatever the code outside answers, `publish` on behalf of a client gives one packet at most to
  -- the message queue, and leaves the store of incoming packets.
  pub publish-At :
      (k : ℕ) (b : Bool) (packet : Packet) (w : World O)
      → Is k b w
      → Is (suc k) b (publish h (some c) packet w).1
  unfolding publish
  publish-At k b packet w a =
      let made = h.new_packet packet w.broker.id w.broker.counter in
      let w' : World O = record w { broker = record (w.broker) { counter = made.1 } } in
      if_both {A = Outcome (Unit {0}) × World O} (λ r. Is (suc k) b r.1)
        (ltb w.broker.max_topic_levels (topic_level_count (some packet.topic)))
        (At-mono c stored id m j w (omega arith) a)
        (then_pure-At (suc k) b tt _ (publish_funcs-At k b (ltb 0 made.0.qos) packet made.0 w' a))
