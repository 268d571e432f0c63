-- ===== src/Handlers/Offline.antt =====
-- lib/handlers/connect.js: the packets that the persistence kept for a client that was away
-- (`emptyQueue`).
use aedes.Common.{ℕ, Bool, true, false, not, ◌||◌, List, [], ◌∷◌, Option, none, some, if◌then◌else◌}
use aedes.Run.{M, pure, ◌>>◌, settle}
use aedes.Packet.{Cmd, Packet}
use aedes.World.{World, Host, asks_outgoing_update, asks_outgoing_clear}
use aedes.World.Steps.{set_client, request}
use aedes.Session.MessageIds.{assign_id}
use aedes.Write.{write}
use aedes.Broker.Failure.{emit_error}
use aedes.Forward.{authorize_forward, make_packet}

abbrev is_publish : Cmd → Bool
is_publish Cmd.publish = true
is_publish _ = false

module _ {O : Type 0} (h : Host O) (c : ℕ) where
  -- `emptyQueueFilter(null, client, packet)`
  send_or_clear : Packet → Bool → M (World O) (Unit {0})
  send_or_clear packet authorized w =
      if (w.clients c).clean || not authorized
      then (request h (some c) (asks_outgoing_clear packet)
              (h.outgoing_clear (w.clients c).id packet)
            >> pure tt)
          w
      else write h c packet w

  abbrev is_some_packet : Option Packet → Bool
  is_some_packet none = false
  is_some_packet (some _) = true

  empty_queue_filter : Packet → M (World O) (Unit {0})
  unfolding send_or_clear authorize_forward
  empty_queue_filter packet w =
      if is_publish packet.cmd
      then (let (answer, w') = authorize_forward h c packet w in
          send_or_clear packet (is_some_packet answer) w')
      else send_or_clear packet true w

  -- `clearQueue`, for each packet of the stream.
  unfoldable pub clear_queue : List Packet → M (World O) (Unit {0})
  unfolding assign_id empty_queue_filter
  clear_queue [] w = pure tt w
  clear_queue (p ∷ ps) w =
      let (made, w1) = make_packet h c p w in
      let (packet, client) = assign_id p made (w1.clients c) in
      (settle
            (request h (some c) (asks_outgoing_update packet) (h.outgoing_update client.id packet))
            (λ _. empty_queue_filter packet) (λ e v. pure tt (emit_error h c e v))
          >> clear_queue ps)
        (set_client c client w1)
