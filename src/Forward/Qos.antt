-- ===== src/Forward/Qos.antt =====
-- The QoS at which `deliverQoS` of lib/client.js hands a packet on.
use aedes.Common.{
  ℕ, ◌≡◌, refl, sym, ap, ◌∙◌, min, ◌⊎◌, inl, inr, ◌||◌, ◌==◌, List, ◌∷◌, Option, none, some,
  if_both, Bool-cases, arith,
}
use aedes.Errors.{Error}
use aedes.Run.{Outcome, done, fail, silent, settle_with}
use aedes.Dict.{Dict, absent, own, slot}
use aedes.Packet.{Packet}
use aedes.World.{
  Client, World, Host, Subscription, requested, asks_authorize_forward, asks_outgoing_update,
  asks_outgoing_clear,
}
use aedes.World.Steps.{request}
use aedes.Session.MessageIds.{assign_id}
use aedes.Delivery.{IsSteady}
use aedes.Write.{write}
use aedes.Broker.Failure.{on_error, emit_error}
use aedes.Forward.{
  same_client, downgrade, authorize_forward, get_to_forward_packet, make_packet, deliver0_forward,
  deliver0, write_qos, write_qos_error, qos_packet, update_and_write, deliver_qos_forward,
  deliver_qos,
}
use aedes.Forward.Rules.{
  written, Sends, set_client-written, note-written, on_error-written, emit_error-written,
  meanwhile-written, write-Sends,
}
use aedes.Forward.Checks.{PassesOn, get_to_forward_packet-Checked}

-- Nothing more was written, or one packet of which `P` holds.
abbrev pub Forwards : (Packet → Type 0) → List Packet → List Packet → Type 0
Forwards P before after = (after ≡ before) ⊎ ((q : Packet) × (after ≡ q ∷ before) × P q)

module _ {O : Type 0} (h : Host O) (c : ℕ) (steady : IsSteady h c) (laws : PassesOn h) where
  Sends-Forwards :
      (P : Packet → Type 0) (q : Packet) (before after : List Packet)
      → Sends q before after
      → P q
      → Forwards P before after
  Sends-Forwards P q before after (inl e) x = inl e
  Sends-Forwards P q before after (inr e) x = inr (q, e, x)

  -- A callback that reports an error on the client writes nothing.
  settle_quiet :
      (report : Error → World O → World O) (r : Outcome (Unit {0}) × World O)
      → ((e : Error) (w : World O) → written c (report e w) ≡ written c w)
      → written c (settle_with (λ u w. (done u, w)) (λ e w. (done tt, report e w)) r).1
        ≡ written c r.1
  settle_quiet report (done u, w) quiet = refl
  settle_quiet report (fail e, w) quiet = quiet e w
  settle_quiet report (silent, w) quiet = refl

  deliver0_forward-Forwards :
      (P : Packet → Type 0) (f : Option Packet) (w : World O)
      → ((q : Packet) → q.qos ≡ 0 → P q)
      → Forwards P (written c w) (written c (deliver0_forward h c f w).1)
  unfolding deliver0_forward
  deliver0_forward-Forwards P none w zero_qos = inl (meanwhile-written h c steady w)
  deliver0_forward-Forwards P (some f) w zero_qos =
      let made = make_packet h c f (h.meanwhile w) in
      let q = record (made.0) { qos = 0 } in
      let r = write h c q made.1 in
      rw
        (settle_quiet (on_error h c) r (on_error-written h c), sym (meanwhile-written h c steady w))
        (Sends-Forwards P q _ _ (write-Sends h c steady q made.1) (zero_qos q refl))

  deliver0-Forwards :
      (P : Packet → Type 0) (p : Packet) (w : World O)
      → ((q : Packet) → q.qos ≡ 0 → P q)
      → Forwards P (written c w) (written c (deliver0 h c p w).1)
  unfolding deliver0
  deliver0-Forwards P p w zero_qos =
      let r = get_to_forward_packet h c p w in
      rw (sym (get_to_forward_packet-Checked h c steady laws p w).silent_so_far)
        (deliver0_forward-Forwards P r.0 r.1 zero_qos)

  assign_id-kept :
      (original made : Packet) (client : Client)
      → let (p, client') = assign_id original made client in
        (p.qos ≡ made.qos)
        × (p.topic ≡ made.topic)
        × (client'.trace ≡ client.trace)
        × (client'.subscriptions ≡ client.subscriptions)
  unfolding assign_id
  assign_id-kept original made client = ground arith

  -- The QoS is that of the packet, lowered by the subscription to its very topic.
  qos_packet-qos :
      (f : Packet) (w : World O)
      → (qos_packet h c f w).0.qos ≡ downgrade (slot f.topic (w.clients c).subscriptions) f.qos
  unfolding qos_packet
  qos_packet-qos f w =
      let made = make_packet h c f w in
      let (same_qos, same_topic) = laws.copies f w.broker.id w.broker.counter in
      let kept = assign_id-kept f made.0 (made.1.clients c) in
      rw (kept.0, kept.1, kept.3, same_qos, same_topic) refl

  qos_packet-written : (f : Packet) (w : World O) → written c (qos_packet h c f w).1 ≡ written c w
  unfolding qos_packet
  qos_packet-written f w =
      let made = make_packet h c f w in
      let kept = assign_id-kept f made.0 (made.1.clients c) in
      set_client-written h c _ made.1 (ap aedes.Forward.Rules.writes (kept.2))

  write_qos-Forwards :
      (P : Packet → Type 0) (q : Packet) (w : World O)
      → P q
      → Forwards P (written c w) (written c (write_qos h c q w).1)
  unfolding write_qos
  write_qos-Forwards P q w x =
      rw (settle_quiet (emit_error h c) (write h c q w) (emit_error-written h c))
        (Sends-Forwards P q _ _ (write-Sends h c steady q w) x)

  request-written :
      {A : Type 0} (asked : aedes.World.Request) (answer : O → Outcome A × O) (w : World O)
      → written c (request h (some c) asked answer w).1 ≡ written c w
  request-written asked answer w =
      meanwhile-written h c steady _ ∙ note-written h c (requested asked) w refl

  settle_written-Forwards :
      {A : Type 0} (P : Packet → Type 0) (q : Packet) (ws : List Packet) (r : Outcome A × World O)
      → written c r.1 ≡ ws
      → P q
      → Forwards P ws (written c (settle_with (λ _. write_qos h c q) (write_qos_error h c) r).1)
  unfolding write_qos_error
  settle_written-Forwards P q ws (done a, w) e x = rw (sym e) (write_qos-Forwards P q w x)
  settle_written-Forwards P q ws (fail e', w) e x = inl (emit_error-written h c e' w ∙ e)
  settle_written-Forwards P q ws (silent, w) e x = inl e

  update_and_write-Forwards :
      (P : Packet → Type 0) (q : Packet) (w : World O)
      → P q
      → Forwards P (written c w) (written c (update_and_write h c q w).1)
  unfolding update_and_write
  update_and_write-Forwards P q w x =
      if_both {A = Outcome (Unit {0}) × World O} (λ r. Forwards P (written c w) (written c r.1))
        ((w.clients c).clean || q.retain) (write_qos-Forwards P q w x)
        (settle_written-Forwards P q (written c w)
          (request h (some c) (asks_outgoing_update q) (h.outgoing_update (w.clients c).id q) w)
          (request-written _ (h.outgoing_update (w.clients c).id q) w) x)

  deliver_qos_forward-Forwards :
      (P : Packet → Type 0) (p : Packet) (f : Option Packet) (w : World O)
      → ((f' q : Packet) (d : Dict Subscription)
          → f ≡ some f'
          → d ≡ (w.clients c).subscriptions
          → q.qos ≡ downgrade (slot f'.topic d) f'.qos
          → P q)
      → Forwards P (written c w) (written c (deliver_qos_forward h c p f w).1)
  unfolding deliver_qos_forward
  deliver_qos_forward-Forwards P p none w fits =
      if_both {A = Outcome (Unit {0}) × World O} (λ r. Forwards P (written c w) (written c r.1))
        (w.clients c).clean (inl (meanwhile-written h c steady w))
        (inl (
          meanwhile-written h c steady _
          ∙ request-written (asks_outgoing_clear p) (h.outgoing_clear (w.clients c).id p) w))
  deliver_qos_forward-Forwards P p (some f) w fits =
      let w' = h.meanwhile w in
      let r = qos_packet h c f w' in
      rw (sym (qos_packet-written f w' ∙ meanwhile-written h c steady w)) (
        update_and_write-Forwards P r.0 r.1 (
          fits f r.0 (w'.clients c).subscriptions refl (ap (λ v. v.subscriptions) (steady w))
            (qos_packet-qos f w')))

  deliver_qos-Forwards :
      (P : Packet → Type 0) (p : Packet) (w : World O)
      → ((q : Packet) → p.qos ≡ 0 → q.qos ≡ 0 → P q)
      → ((q : Packet) → q.qos ≡ downgrade (slot p.topic (w.clients c).subscriptions) p.qos → P q)
      → Forwards P (written c w) (written c (deliver_qos h c p w).1)
  unfolding deliver_qos
  deliver_qos-Forwards P p w zero_fits fits =
      let r = get_to_forward_packet h c p w in
      let checked = get_to_forward_packet-Checked h c steady laws p w in
      elim (Bool-cases (p.qos == 0)) [
        | inl is_zero ↦ rw is_zero (deliver0-Forwards P p w (λ q e. zero_fits q (ground arith) e))
        | inr more ↦ rw more (
            rw (sym checked.silent_so_far) (
              deliver_qos_forward-Forwards P p r.0 r.1 (λ f q d e same lowered.
                let (same_qos, same_topic) = checked.same_packet f e in
                fits q
                  (lowered ∙ rw (same_qos, same_topic, same, checked.same_subscriptions) refl))))
      ]

  -- If the code outside keeps the QoS and the topic of a packet, and other tasks leave the client
  -- alone, then `deliverQoS` writes one packet at most to a client that has a subscription under the
  -- very topic of the packet, at the lower QoS of the packet and of this subscription.
  pub deliver_qos-min :
      (p : Packet) (s : Subscription) (w : World O)
      → slot p.topic (w.clients c).subscriptions ≡ own s
      → Forwards (λ q. q.qos ≡ min p.qos s.qos) (written c w) (written c (deliver_qos h c p w).1)
  deliver_qos-min p s w found =
      deliver_qos-Forwards (λ q. q.qos ≡ min p.qos s.qos) p w (λ q z e. ground arith)
        (λ q e. e ∙ rw found (ground arith))

  -- In the same way, if no subscription stands under the very topic of the packet, then `deliverQoS`
  -- writes one packet at most, at the QoS of the packet: the QoS of the subscription whose filter
  -- matched it does not lower it.
  pub deliver_qos-unlowered :
      (p : Packet) (w : World O)
      → slot p.topic (w.clients c).subscriptions ≡ absent
      → Forwards (λ q. q.qos ≡ p.qos) (written c w) (written c (deliver_qos h c p w).1)
  deliver_qos-unlowered p w missing =
      deliver_qos-Forwards (λ q. q.qos ≡ p.qos) p w (λ q z e. e ∙ sym z)
        (λ q e. e ∙ rw missing refl)
