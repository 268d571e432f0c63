-- ===== src/Broker/Publishing/Ending.antt =====
-- How `publish` of aedes.js ends.
use aedes.Common.{ℕ, Option, starts_with, ltb, if◌then◌else◌, if_both, some}
use aedes.Run.{Outcome, M, run_series}
use aedes.Topic.{topic_level_count}
use aedes.Packet.{Packet}
use aedes.World.{
  World, Host, asks_store_retained, asks_mq_emit, asks_subscriptions_by_topic, asks_enqueue_combi,
  asks_published, requested, error_event, publish_event, emitted,
}
use aedes.World.Ends.{
  Speaks, Calm, Ends, pure-Ends, throw-Ends, drop-Ends, settle-Ends, run_series-Ends,
  call_back-Ends, request-Ends,
}
use aedes.World.Steps.{note, emit, request}
use aedes.Broker.Publishing.{
  sys_prefix, remove_sharp, keep, store_retained, stamp, emit_packet, enqueue_offline,
  call_published, publish_funcs_simple, publish_funcs_qos, publish,
}

module _ {O : Type 0} (h : Host O) (S : Type 0) (P : World O → Type 0) {client : Option ℕ}
    (calm : Calm h client P) (speaks : Speaks h S) where
  store_retained-Ends : (p : Packet) (w : World O) → P w → Ends S P (store_retained h client p w)
  unfolding store_retained
  store_retained-Ends p w q =
      if_both {A = M (World O) Packet} (λ f. Ends S P (f w)) p.retain
        (drop-Ends S P p _ (
          request-Ends h S P calm (asks_store_retained p) (h.store_retained p) w
            (speaks.store_retained p) q))
        (pure-Ends S P p w q)

  emit_packet-Ends : (p : Packet) (w : World O) → P w → Ends S P (emit_packet h client p w)
  unfolding emit_packet
  emit_packet-Ends p w q =
      let p' = stamp h client client w p in
      drop-Ends S P p' _
        (request-Ends h S P calm (asks_mq_emit p') (h.mq_emit p') w (speaks.mq_emit p') q)

  enqueue_offline-Ends : (p : Packet) (w : World O) → P w → Ends S P (enqueue_offline h client p w)
  unfolding enqueue_offline
  enqueue_offline-Ends p w q =
      settle-Ends S P _ _
        (request h client (asks_subscriptions_by_topic p.topic) (h.subscriptions_by_topic p.topic)
          w)
        (request-Ends h S P calm _ (h.subscriptions_by_topic p.topic) w (speaks.by_topic p.topic) q)
        (λ subs w' q'.
          let subs' = if starts_with sys_prefix p.topic then keep remove_sharp subs else subs in
          drop-Ends S P p _ (
            request-Ends h S P calm (asks_enqueue_combi p) (h.enqueue_combi subs' p) w'
              (speaks.enqueue_combi subs' p) q'))
        (λ e w' failed q'. (
          calm.noted (emitted (error_event e)) w' q',
          λ _. speaks.by_topic_lists p.topic e _ failed,
        ))

  call_published-Ends :
      (original p : Packet) (w : World O) → P w → Ends S P (call_published h client original p w)
  unfolding call_published
  call_published-Ends original p w q =
      let w1 = note client (requested (asks_published original)) w in
      let w2 = emit client (publish_event original) w1 in
      drop-Ends S P p _ (
        call_back-Ends h S P calm (h.published original w2.outside) w2
          (speaks.published original w2.outside)
          (calm.noted (emitted (publish_event original)) w1
            (calm.noted (requested (asks_published original)) w q)))

  pub publish-Ends : (packet : Packet) (w : World O) → P w → Ends S P (publish h client packet w)
  unfolding publish publish_funcs_simple publish_funcs_qos
  publish-Ends packet w q =
      let made = h.new_packet packet w.broker.id w.broker.counter in
      let w' : World O = record w { broker = record (w.broker) { counter = made.1 } } in
      let q' = calm.counted made.1 w q in
      if_both {A = Outcome (Unit {0}) × World O} (Ends S P)
        (ltb w.broker.max_topic_levels (topic_level_count (some packet.topic)))
        (throw-Ends S P _ w q)
        (drop-Ends S P tt _ (
          if_both (λ fs. Ends S P (run_series fs made.0 w')) (ltb 0 made.0.qos)
            (run_series-Ends S P (publish_funcs_qos h client packet) made.0 w'
              (
                store_retained-Ends,
                (enqueue_offline-Ends, (emit_packet-Ends, (call_published-Ends packet, tt))),
              )
              q')
            (run_series-Ends S P (publish_funcs_simple h client packet) made.0 w'
              (store_retained-Ends, (emit_packet-Ends, (call_published-Ends packet, tt))) q')))
