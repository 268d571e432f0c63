-- ===== src/Handlers/Dispatch.antt =====
-- lib/handlers/index.js: which handler a packet goes to.
pub mod Sequence
pub mod Ending
use aedes.Common.{ℕ, true, false, ◌||◌, none, some, if◌then◌else◌}
use aedes.Errors.{invalid_protocol}
use aedes.Run.{M, pure, throw}
use aedes.Packet.{Cmd, Packet}
use aedes.World.{World, Host, destroyed, keepalive_refreshed}
use aedes.World.Steps.{set_client, note}
use aedes.Handlers.Connect.{handle_connect}
use aedes.Handlers.Subscribe.{handle_subscribe}
use aedes.Handlers.Unsubscribe.{handle_unsubscribe}
use aedes.Handlers.Publish.{handle_publish}
use aedes.Handlers.Acks.{handle_puback, handle_pubrec, handle_pubrel, handle_ping}

module _ {O : Type 0} (h : Host O) (c : ℕ) where
  -- `conn.destroy()`
  abbrev pub destroy : World O → World O
  destroy w =
      note (some c) destroyed (set_client c (record (w.clients c) { conn_destroyed = true }) w)

  -- `finish(conn, packet, done)`
  abbrev finish : M (World O) (Unit {0})
  finish w = throw invalid_protocol (destroy w)

  -- The keep-alive timer starts anew once the handler has been called. (Here that stands before
  -- the handler, whose waits come later; where it fails at once the client is closed anyway.)
  refresh : World O → World O
  refresh w = elim (w.clients c).keepalive_interval [
    | none ↦ w
    | some _ ↦ note (some c) keepalive_refreshed w
  ]

  disconnect : M (World O) (Unit {0})
  disconnect w = pure tt (destroy (set_client c (record (w.clients c) { disconnected = true }) w))

  -- The `switch` on the command, for a client that is connecting or connected.
  switch : Cmd → Packet → M (World O) (Unit {0})
  unfolding refresh disconnect
  switch Cmd.publish packet w = handle_publish h c packet (refresh w)
  switch Cmd.subscribe packet w = handle_subscribe h c false packet (refresh w)
  switch Cmd.unsubscribe packet w =
      handle_unsubscribe h c packet.message_id packet.unsubscriptions (refresh w)
  switch Cmd.pubcomp packet w = handle_puback h c packet (refresh w)
  switch Cmd.puback packet w = handle_puback h c packet (refresh w)
  switch Cmd.pubrel packet w = handle_pubrel h c packet (refresh w)
  switch Cmd.pubrec packet w = handle_pubrec h c packet (refresh w)
  switch Cmd.pingreq packet w = handle_ping h c packet (refresh w)
  switch Cmd.disconnect packet w = disconnect w
  switch _ packet w = pure tt (destroy w)

  handle_cmd : Cmd → Packet → M (World O) (Unit {0})
  unfolding switch
  handle_cmd Cmd.connect packet w =
      if (w.clients c).connecting || (w.clients c).connected
      then finish w
      else handle_connect h c packet w
  handle_cmd cmd packet w =
      if (w.clients c).connecting || (w.clients c).connected then switch cmd packet w else finish w

  unfoldable pub handle : Packet → M (World O) (Unit {0})
  unfolding handle_cmd
  handle packet = handle_cmd packet.cmd packet
