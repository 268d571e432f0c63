-- ===== src/Write.antt =====
-- lib/write.js, and the errors that a client reports on itself.
pub mod Laws
pub mod Ending
use aedes.Common.{ℕ, ◌+◌, Bool, true, false, ◌||◌, some, if◌then◌else◌}
use aedes.Errors.{packet_not_valid, connection_closed}
use aedes.Run.{Outcome, done, fail, M}
use aedes.Packet.{Packet}
use aedes.World.{Client, World, Host, Written, threw, taken, full, wrote, destroyed}
use aedes.World.Steps.{set_client, note, call_back}
use aedes.Session.Drain.{wait_for_drain}

module _ {O : Type 0} (h : Host O) where
  -- `setImmediate(done, error, client)`
  abbrev pub later : Outcome (Unit {0}) → World O → Outcome (Unit {0}) × World O
  later r w = (r, h.meanwhile w)

  -- The packet is in the buffer of the socket, which is full: `client.waitForDrain(done)`.
  unfoldable pub wait : ℕ → World O → Outcome (Unit {0}) × World O
  wait c w =
      let client = wait_for_drain w.broker.drain_timeout w.next_callback (w.clients c) in
      let w' = record w {
        clients = (set_client c client w).clients;
        next_callback = w.next_callback + 1;
      } in
      call_back h (h.drained c w'.outside) w'

  unfoldable pub after_write : ℕ → Packet → Written → World O → Outcome (Unit {0}) × World O
  unfolding wait
  after_write c packet threw w = later (fail packet_not_valid) w
  after_write c packet taken w = later (done tt) (note (some c) (wrote packet) w)
  after_write c packet full w =
      let w' = note (some c) (wrote packet) w in
      if (w.clients c).errored then later (done tt) w' else wait c w'

  unfoldable pub write : ℕ → Packet → M (World O) (Unit {0})
  unfolding after_write
  write c packet w =
      if (w.clients c).connecting || (w.clients c).connected
      then (let (result, o) = h.write_to_stream c packet w.outside in
          after_write c packet result (record w { outside = o }))
      else later (fail connection_closed) w
