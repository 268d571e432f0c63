-- ===== src/Forward/Callback.antt =====
-- The callback that the message queue waits for (`deliver0` and `deliverQoS` of lib/client.js,
-- `handlePacketSubscription` of lib/handlers/subscribe.js).
use aedes.Common.{
  ℕ, ◌≡◌, ◌≢◌, refl, false, ◌&&◌, ◌||◌, ◌==◌, Option, none, some, Text, if◌then◌else◌, if_both,
}
use aedes.Errors.{Error}
use aedes.Run.{Outcome, done, fail, silent, settle_with}
use aedes.Packet.{Packet}
use aedes.World.{World, Host, Func, Written, threw, taken, full, asks_outgoing_update}
use aedes.World.Steps.{request}
use aedes.Write.{wait, after_write, write}
use aedes.Broker.Failure.{emit_error}
use aedes.Forward.{
  starts_with_dollar, make_packet, get_to_forward_packet, deliver0_forward, deliver0, write_qos,
  write_qos_error, qos_packet, update_and_write, deliver_qos_forward, deliver_qos,
  deliver_subscribed,
}

-- Every wait for a socket to drain comes to an end, as a timer or the end of the connection makes
-- it, and the persistence answers `outgoingUpdate`, be it by an error.
pub record CallsBack {O : Type 0} (h : Host O) : Type 0 where
  pub drain_ends : (c : ℕ) (o : O) → (h.drained c o).0 ≢ silent
  pub update_ends : (id : Option Text) (p : Packet) (o : O) → (h.outgoing_update id p o).0 ≢ silent

module _ {O : Type 0} (h : Host O) (c : ℕ) (ends : CallsBack h) where
  abbrev IsDone : Outcome (Unit {0}) × World O → Type 0
  IsDone r = r.0 ≡ done tt

  after_write-ne : (q : Packet) (r : Written) (w : World O) → (after_write h c q r w).0 ≢ silent
  unfolding after_write wait
  after_write-ne q threw w = λ e. cc
  after_write-ne q taken w = λ e. cc
  after_write-ne q full w =
      if_both {A = Outcome (Unit {0}) × World O} (λ r. r.0 ≢ silent) (w.clients c).errored (λ e. cc)
        (ends.drain_ends c w.outside)

  write-ne : (q : Packet) (w : World O) → (write h c q w).0 ≢ silent
  unfolding write
  write-ne q w =
      if_both {A = Outcome (Unit {0}) × World O} (λ r. r.0 ≢ silent)
        ((w.clients c).connecting || (w.clients c).connected)
        (after_write-ne q _ (record w { outside = (h.write_to_stream c q w.outside).1 })) (λ e. cc)

  settle_reported :
      (report : Error → World O → World O) (r : Outcome (Unit {0}) × World O)
      → r.0 ≢ silent
      → IsDone (settle_with (λ u w. (done u, w)) (λ e w. (done tt, report e w)) r)
  settle_reported report (done tt, w) ends' = refl
  settle_reported report (fail e, w) ends' = refl
  settle_reported report (silent, w) ends' = absurd (ends' refl)

  deliver0_forward-IsDone : (f : Option Packet) (w : World O) → IsDone (deliver0_forward h c f w)
  unfolding deliver0_forward
  deliver0_forward-IsDone none w = refl
  deliver0_forward-IsDone (some f) w =
      let (p, w') = make_packet h c f (h.meanwhile w) in
      settle_reported _ (write h c (record p { qos = 0 }) w') (write-ne (record p { qos = 0 }) w')

  deliver0-IsDone : (p : Packet) (w : World O) → IsDone (deliver0 h c p w)
  unfolding deliver0
  deliver0-IsDone p w = let (f, w') = get_to_forward_packet h c p w in deliver0_forward-IsDone f w'

  write_qos-IsDone : (q : Packet) (w : World O) → IsDone (write_qos h c q w)
  unfolding write_qos
  write_qos-IsDone q w = settle_reported (emit_error h c) (write h c q w) (write-ne q w)

  settle_update-IsDone :
      {A : Type 0} (q : Packet) (r : Outcome A × World O)
      → r.0 ≢ silent
      → IsDone (settle_with (λ _. write_qos h c q) (write_qos_error h c) r)
  unfolding write_qos_error
  settle_update-IsDone q (done a, w) ends' = write_qos-IsDone q w
  settle_update-IsDone q (fail e, w) ends' = refl
  settle_update-IsDone q (silent, w) ends' = absurd (ends' refl)

  update_and_write-IsDone : (q : Packet) (w : World O) → IsDone (update_and_write h c q w)
  unfolding update_and_write
  update_and_write-IsDone q w =
      if_both {A = Outcome (Unit {0}) × World O} IsDone ((w.clients c).clean || q.retain)
        (write_qos-IsDone q w)
        (settle_update-IsDone q
          (request h (some c) (asks_outgoing_update q) (h.outgoing_update (w.clients c).id q) w)
          (ends.update_ends (w.clients c).id q w.outside))

  deliver_qos_forward-IsDone :
      (p : Packet) (f : Option Packet) (w : World O) → IsDone (deliver_qos_forward h c p f w)
  unfolding deliver_qos_forward
  deliver_qos_forward-IsDone p none w =
      if_both {A = Outcome (Unit {0}) × World O} IsDone (w.clients c).clean refl refl
  deliver_qos_forward-IsDone p (some f) w =
      let (q, w') = qos_packet h c f (h.meanwhile w) in update_and_write-IsDone q w'

  deliver_qos-IsDone : (p : Packet) (w : World O) → IsDone (deliver_qos h c p w)
  unfolding deliver_qos
  deliver_qos-IsDone p w =
      let (f, w') = get_to_forward_packet h c p w in
      if_both {A = Outcome (Unit {0}) × World O} IsDone (p.qos == 0) (deliver0-IsDone p w)
        (deliver_qos_forward-IsDone p f w')

  -- If every wait for a socket ends and the persistence answers, then the function of a subscription
  -- calls the callback of the message queue with no error, whatever the packet, whether or not it is
  -- forwarded, and also when the packet cannot be written or updated.
  pub deliver_subscribed-done :
      (func : Func) (p : Packet) (w : World O) → (deliver_subscribed h c func p w).0 ≡ done tt
  unfolding deliver_subscribed
  deliver_subscribed-done func p w =
      let (made, w') = make_packet h c p w in
      let p' = record made { nl = func.nl; retain = if func.rap then made.retain else false } in
      if_both {A = Outcome (Unit {0}) × World O} IsDone
        (func.block_dollar && starts_with_dollar h c p.topic) refl
        (if_both {A = Outcome (Unit {0}) × World O} IsDone func.with_qos (deliver_qos-IsDone p' w')
          (deliver0-IsDone p' w'))
