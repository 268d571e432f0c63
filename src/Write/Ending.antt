-- ===== src/Write/Ending.antt =====
-- How `write` of lib/write.js ends.
use aedes.Common.{ℕ, ◌+◌, ◌≡◌, ◌||◌, if_both, arith, some}
use aedes.Run.{Outcome, done, silent}
use aedes.Packet.{Packet}
use aedes.World.{Client, World, Host, Written, threw, taken, full, wrote}
use aedes.World.Ends.{Speaks, Stable, Stable-Calm, Ends, call_back-Ends}
use aedes.World.Steps.{set_client, note}
use aedes.Session.Drain.{wait_for_drain}
use aedes.Write.{later, wait, after_write, write}

wait_for_drain-closed :
    (t k : ℕ) (client : Client) → (wait_for_drain t k client).closed ≡ client.closed
unfolding wait_for_drain
wait_for_drain-closed t k client = ground arith

module _ {O : Type 0} (h : Host O) (S : Type 0) (P : World O → Type 0) (stable : Stable h P)
    (speaks : Speaks h S) where
  later-Ends :
      (r : Outcome (Unit {0})) (w : World O) → (r ≡ silent → S) → P w → Ends S P (later h r w)
  later-Ends r w ends q = (stable.answered w.outside w q, ends)

  wait-Ends : (c : ℕ) (w : World O) → P w → Ends S P (wait h c w)
  unfolding wait
  wait-Ends c w q =
      let client = wait_for_drain w.broker.drain_timeout w.next_callback (w.clients c) in
      let same = wait_for_drain-closed w.broker.drain_timeout w.next_callback (w.clients c) in
      call_back-Ends h S P (Stable-Calm stable (some c)) (h.drained c w.outside) _
        (speaks.drained c w.outside)
        (stable.numbered (w.next_callback + 1) (set_client c client w)
          (stable.set c client w same q))

  after_write-Ends :
      (c : ℕ) (p : Packet) (r : Written) (w : World O) → P w → Ends S P (after_write h c p r w)
  unfolding after_write
  after_write-Ends c p threw w q = later-Ends _ w (λ e. cc) q
  after_write-Ends c p taken w q =
      later-Ends (done tt) (note (some c) (wrote p) w) (λ e. cc)
        (stable.noted (some c) (wrote p) w q)
  after_write-Ends c p full w q =
      let w' = note (some c) (wrote p) w in
      let q' = stable.noted (some c) (wrote p) w q in
      if_both {A = Outcome (Unit {0}) × World O} (Ends S P) (w.clients c).errored
        (later-Ends (done tt) w' (λ e. cc) q') (wait-Ends c w' q')

  pub write-Ends : (c : ℕ) (p : Packet) (w : World O) → P w → Ends S P (write h c p w)
  unfolding write
  write-Ends c p w q =
      if_both {A = Outcome (Unit {0}) × World O} (Ends S P)
        ((w.clients c).connecting || (w.clients c).connected)
        (let (r, o) = h.write_to_stream c p w.outside in
          after_write-Ends c p r (record w { outside = o }) (stable.written o w q))
        (later-Ends _ w (λ e. cc) q)
