-- ===== src/Handlers/Acks.antt =====
-- lib/handlers/puback.js, pubrec.js, pubrel.js and ping.js: the packets that acknowledge, and the
-- ping.
pub mod Pubcomp
pub mod Ending
pub mod Release
use aedes.Common.{ℕ, Bool, true, false, List, [], ◌∷◌, Option, none, some, if◌then◌else◌}
use aedes.Run.{M, pure, throw, ◌>>◌, settle, run_series}
use aedes.Packet.{Cmd, Packet, blank}
use aedes.World.{
  World, Host, asks_incoming_get, asks_incoming_del, asks_outgoing_update, asks_outgoing_clear,
  ack_event, ack_without_packet, ping_event,
}
use aedes.World.Steps.{emit, request}
use aedes.Write.{write}

abbrev pub pub_rel : Packet → Packet
pub_rel packet = record (blank Cmd.pubrel) { message_id = packet.message_id }

abbrev pub pub_comp : Packet → Packet
pub_comp packet = record (blank Cmd.pubcomp) { message_id = packet.message_id }

-- `arg` of the series of PUBREL: `arg.foundInStore`. (`arg.packet` is always the PUBREL itself.)
pub record PubrelArg : Type 0 where
  pub found_in_store : Bool

-- `!!packet`
abbrev is_found : Option Packet → Bool
is_found none = false
is_found (some _) = true

module _ {O : Type 0} (h : Host O) (c : ℕ) where
  -- PUBACK and PUBCOMP
  unfoldable pub handle_puback : Packet → M (World O) (Unit {0})
  handle_puback packet w =
      settle
        (request h (some c) (asks_outgoing_clear packet) (h.outgoing_clear (w.clients c).id packet))
        (λ original w'. pure tt (emit (some c) (ack_event original) w'))
        (λ e w'. throw e (emit (some c) ack_without_packet w')) w

  unfoldable pub handle_pubrec : Packet → M (World O) (Unit {0})
  handle_pubrec packet w =
      if (w.clients c).clean
      then write h c (pub_rel packet) w
      else (request h (some c) (asks_outgoing_update (pub_rel packet))
              (h.outgoing_update (w.clients c).id (pub_rel packet))
            >> write h c (pub_rel packet))
          w

  module _ (packet : Packet) where
    pubrel_get : PubrelArg → M (World O) PubrelArg
    pubrel_get arg w =
        settle
          (request h (some c) (asks_incoming_get packet) (h.incoming_get (w.clients c).id packet))
          (λ found. pure (record { found_in_store = is_found found }))
          (λ _. pure (record { found_in_store = false })) w

    -- `.finally(…)`: the series goes on whether or not the packet could be deleted.
    pubrel_delete : PubrelArg → M (World O) PubrelArg
    pubrel_delete arg w =
        if arg.found_in_store
        then settle
            (request h (some c) (asks_incoming_del packet) (h.incoming_del (w.clients c).id packet))
            (λ _. pure arg) (λ _. pure arg) w
        else pure arg w

    pubrel_write : PubrelArg → M (World O) PubrelArg
    pubrel_write arg = write h c (pub_comp packet) >> pure arg

    pubrel_actions : List (PubrelArg → M (World O) PubrelArg)
    unfolding pubrel_get pubrel_delete pubrel_write
    pubrel_actions = pubrel_get ∷ pubrel_delete ∷ pubrel_write ∷ []

  unfoldable pub handle_pubrel : Packet → M (World O) (Unit {0})
  unfolding pubrel_actions run_series
  handle_pubrel packet =
      run_series (pubrel_actions packet) (record { found_in_store = false }) >> pure tt

  unfoldable pub handle_ping : Packet → M (World O) (Unit {0})
  handle_ping packet w = write h c (blank Cmd.pingresp) (emit (some c) ping_event w)
