-- ===== src/Forward/Rules.antt =====
-- What the steps of lib/write.js and of `_onError` add to the packets that were written to a client.
use aedes.Common.{
  ℕ, ◌≡◌, refl, ap, ◌∙◌, ◌⊎◌, inl, inr, true, ◌||◌, List, [], ◌∷◌, none, some, if_both, arith,
}
use aedes.Errors.{Error}
use aedes.Run.{Outcome}
use aedes.Packet.{Packet}
use aedes.World.{Client, World, Host, Effect, Written, threw, taken, full, wrote, destroyed}
use aedes.World.Heap.{update_self}
use aedes.World.Steps.{set_client, note, emit}
use aedes.Session.Drain.{wait_for_drain, flush_drains}
use aedes.Delivery.{IsSteady}
use aedes.Write.{wait, after_write, write}
use aedes.Broker.Registry.{begin_close, close}
use aedes.Broker.Failure.{destroy_once, failure_event, on_error, emit_error}

-- The packets that were written, the latest first.
abbrev pub writes : List Effect → List Packet
writes [] = []
writes (wrote p ∷ es) = p ∷ writes es
writes (_ ∷ es) = writes es

-- What was written to the client `c`.
abbrev pub written : {O : Type 0} → ℕ → World O → List Packet
written c w = writes (w.clients c).trace

wait_for_drain-trace :
    (t k : ℕ) (client : Client) → (wait_for_drain t k client).trace ≡ client.trace
unfolding wait_for_drain
wait_for_drain-trace t k client = ground arith

-- One packet more at most was written.
abbrev pub Sends : Packet → List Packet → List Packet → Type 0
Sends q before after = (after ≡ before) ⊎ (after ≡ q ∷ before)

module _ {O : Type 0} (h : Host O) (c : ℕ) where
  pub set_client-written :
      (client : Client) (w : World O)
      → writes client.trace ≡ written c w
      → written c (set_client c client w) ≡ written c w
  set_client-written client w e = ap (λ v. writes v.trace) (update_self w.clients c client) ∙ e

  pub note-written :
      (e : Effect) (w : World O)
      → writes (e ∷ (w.clients c).trace) ≡ written c w
      → written c (note (some c) e w) ≡ written c w
  note-written e w same = ap (λ v. writes v.trace) (update_self w.clients c _) ∙ same

  destroy_once-written : (w : World O) → written c (destroy_once h c w) ≡ written c w
  unfolding destroy_once
  destroy_once-written w =
      let client = record (w.clients c) { conn_destroyed = true } in
      let w' = set_client c client w in
      if_both {A = World O} (λ v. written c v ≡ written c w) (w.clients c).conn_destroyed refl
        (note-written destroyed w' refl ∙ set_client-written client w refl)

  close-written : (w : World O) → written c (close h c none w) ≡ written c w
  unfolding close begin_close flush_drains
  close-written w =
      if_both {A = World O} (λ v. written c v ≡ written c w) (w.clients c).closed refl
        (set_client-written (begin_close (w.clients c) none) w refl)

  pub on_error-written : (e : Error) (w : World O) → written c (on_error h c e w) ≡ written c w
  unfolding on_error
  on_error-written e w =
      let w1 = set_client c (record (w.clients c) { errored = true }) w in
      let w2 = destroy_once h c w1 in
      close-written (emit none (failure_event c e (w2.clients c).id) w2)
      ∙ destroy_once-written w1
      ∙ set_client-written (record (w.clients c) { errored = true }) w refl

  pub emit_error-written : (e : Error) (w : World O) → written c (emit_error h c e w) ≡ written c w
  unfolding emit_error
  emit_error-written e w =
      on_error-written e (emit (some c) (aedes.World.error_event e) w) ∙ note-written _ w refl

  module _ (steady : IsSteady h c) where
    pub meanwhile-written : (w : World O) → written c (h.meanwhile w) ≡ written c w
    meanwhile-written w = ap (λ v. writes v.trace) (steady w)

    wait-written : (w : World O) → written c (wait h c w).1 ≡ written c w
    unfolding wait
    wait-written w =
        let client = wait_for_drain w.broker.drain_timeout w.next_callback (w.clients c) in
        meanwhile-written _
        ∙ set_client-written client w
            (ap writes (wait_for_drain-trace w.broker.drain_timeout w.next_callback (w.clients c)))

    after_write-Sends :
        (q : Packet) (r : Written) (w : World O)
        → Sends q (written c w) (written c (after_write h c q r w).1)
    unfolding after_write
    after_write-Sends q threw w = inl (meanwhile-written w)
    after_write-Sends q taken w =
        inr (meanwhile-written _ ∙ ap (λ v. writes v.trace) (update_self w.clients c _))
    after_write-Sends q full w =
        let w' = note (some c) (wrote q) w in
        let more : written c w' ≡ q ∷ written c w =
          ap (λ v. writes v.trace) (update_self w.clients c _) in
        if_both (λ (r : Outcome (Unit {0}) × World O). Sends q (written c w) (written c r.1))
          (w.clients c).errored (inr (meanwhile-written w' ∙ more)) (inr (wait-written w' ∙ more))

    pub write-Sends :
        (q : Packet) (w : World O) → Sends q (written c w) (written c (write h c q w).1)
    unfolding write
    write-Sends q w =
        if_both (λ (r : Outcome (Unit {0}) × World O). Sends q (written c w) (written c r.1))
          ((w.clients c).connecting || (w.clients c).connected)
          (after_write-Sends q (h.write_to_stream c q w.outside).0
            (record w { outside = (h.write_to_stream c q w.outside).1 }))
          (inl (meanwhile-written w))
