-- ===== src/Write/Laws.antt =====
-- `write` of lib/write.js, the message queue and the store of packets.
use aedes.Common.{ℕ, Bool, ◌||◌, ◌≡◌, refl, Option, some, Text, if_both, arith}
use aedes.Run.{Outcome}
use aedes.Packet.{Packet}
use aedes.World.{Client, World, Host, Written, threw, taken, full, wrote}
use aedes.World.Steps.{note}
use aedes.Session.Drain.{wait_for_drain}
use aedes.Delivery.{KeepsIncoming, IsSteady}
use aedes.Delivery.Rules.{At, set-At, note-At, outside-At, meanwhile-At, call_back-At}
use aedes.Write.{wait, after_write, write}

wait_for_drain-kept :
    (t k : ℕ) (client : Client)
    → ((wait_for_drain t k client).id ≡ client.id)
      × ((wait_for_drain t k client).trace ≡ client.trace)
unfolding wait_for_drain
wait_for_drain-kept t k client = ground arith

module _ {O : Type 0} (c : ℕ) (stored : Option Text → Option ℕ → O → Type 0) (id : Option Text)
    (m : Option ℕ) (j : ℕ) (h : Host O) (laws : KeepsIncoming h stored id m)
    (steady : IsSteady h c) where
  wait-At :
      {k : ℕ} {b : Bool} (w : World O)
      → At c stored id m j k b w
      → At c stored id m j k b (wait h c w).1
  unfolding wait
  wait-At {k} {b} w a =
      let client = wait_for_drain w.broker.drain_timeout w.next_callback (w.clients c) in
      let (same_id, same_trace) =
        wait_for_drain-kept w.broker.drain_timeout w.next_callback (w.clients c) in
      call_back-At c stored id m j h laws steady _ (h.drained c w.outside)
        (laws.keep_drained c w.outside)
        (set-At c stored id m j client w (record {
          owner = rw same_id a.owner;
          least = rw same_trace a.least;
          few = rw same_trace a.few;
          kept = a.kept;
        }))

  after_write-At :
      {k : ℕ} {b : Bool} (p : Packet) (r : Written) (w : World O)
      → At c stored id m j k b w
      → At c stored id m j k b (after_write h c p r w).1
  unfolding after_write
  after_write-At p threw w a = meanwhile-At c stored id m j h laws steady w a
  after_write-At p taken w a =
      meanwhile-At c stored id m j h laws steady _
        (note-At c stored id m j (wrote p) w (λ es. refl) a)
  after_write-At {k} {b} p full w a =
      let w' = note (some c) (wrote p) w in
      let a' = note-At c stored id m j (wrote p) w (λ es. refl) a in
      if_both (λ (r : Outcome (Unit {0}) × World O). At c stored id m j k b r.1)
        (w.clients c).errored (meanwhile-At c stored id m j h laws steady w' a') (wait-At w' a')

  pub write-At :
      {k : ℕ} {b : Bool} (p : Packet) (w : World O)
      → At c stored id m j k b w
      → At c stored id m j k b (write h c p w).1
  unfolding write
  write-At {k} {b} p w a =
      if_both (λ (r : Outcome (Unit {0}) × World O). At c stored id m j k b r.1)
        ((w.clients c).connecting || (w.clients c).connected)
        (after_write-At p (h.write_to_stream c p w.outside).0 _
          (outside-At c stored id m j (laws.keep_write c p w.outside) a))
        (meanwhile-At c stored id m j h laws steady w a)
