-- ===== src/Handlers/Acks/Ending.antt =====
-- How PUBACK, PUBREC, PUBREL and PINGREQ end (lib/handlers).
use aedes.Common.{false, ℕ, some, if_both}
use aedes.Run.{Outcome}
use aedes.Packet.{Cmd, Packet, blank}
use aedes.World.{
  World, Host, asks_incoming_get, asks_incoming_del, asks_outgoing_update, asks_outgoing_clear,
  ack_event, ack_without_packet, ping_event, emitted,
}
use aedes.World.Ends.{
  Speaks, Stable, Stable-Calm, Ends, pure-Ends, drop-Ends, bind-Ends, settle-Ends, request-Ends,
  run_series-Ends,
}
use aedes.World.Steps.{request}
use aedes.Write.{write}
use aedes.Write.Ending.{write-Ends}
use aedes.Handlers.Acks.{
  pub_rel, pub_comp, PubrelArg, is_found, pubrel_get, pubrel_delete, pubrel_write, pubrel_actions,
  handle_puback, handle_pubrec, handle_pubrel, handle_ping,
}

module _ {O : Type 0} (h : Host O) (S : Type 0) (P : World O → Type 0) (stable : Stable h P)
    (speaks : Speaks h S) (c : ℕ) (p : Packet) where
  pub handle_puback-Ends : (w : World O) → P w → Ends S P (handle_puback h c p w)
  unfolding handle_puback
  handle_puback-Ends w q =
      settle-Ends S P _ _
        (request h (some c) (asks_outgoing_clear p) (h.outgoing_clear (w.clients c).id p) w)
        (request-Ends h S P (Stable-Calm stable (some c)) (asks_outgoing_clear p)
          (h.outgoing_clear (w.clients c).id p) w (speaks.outgoing_clear (w.clients c).id p) q)
        (λ found w1 q1. (stable.noted (some c) (emitted (ack_event found)) w1 q1, λ e. cc))
        (λ e w1 _ q1. (stable.noted (some c) (emitted ack_without_packet) w1 q1, λ e'. cc))

  pub handle_pubrec-Ends : (w : World O) → P w → Ends S P (handle_pubrec h c p w)
  unfolding handle_pubrec
  handle_pubrec-Ends w q =
      if_both {A = Outcome (Unit {0}) × World O} (Ends S P) (w.clients c).clean
        (write-Ends h S P stable speaks c (pub_rel p) w q)
        (bind-Ends S P _
          (request h (some c) (asks_outgoing_update (pub_rel p))
            (h.outgoing_update (w.clients c).id (pub_rel p)) w)
          (request-Ends h S P (Stable-Calm stable (some c)) (asks_outgoing_update (pub_rel p))
            (h.outgoing_update (w.clients c).id (pub_rel p)) w
            (speaks.outgoing_update (w.clients c).id (pub_rel p)) q)
          (λ _ w1 _ q1. write-Ends h S P stable speaks c (pub_rel p) w1 q1))

  get-Ends : (arg : PubrelArg) (w : World O) → P w → Ends S P (pubrel_get h c p arg w)
  unfolding pubrel_get
  get-Ends arg w q =
      settle-Ends S P _ _
        (request h (some c) (asks_incoming_get p) (h.incoming_get (w.clients c).id p) w)
        (request-Ends h S P (Stable-Calm stable (some c)) (asks_incoming_get p)
          (h.incoming_get (w.clients c).id p) w (speaks.incoming_get (w.clients c).id p) q)
        (λ found w1 q1. pure-Ends S P (record { found_in_store = is_found found }) w1 q1)
        (λ e w1 _ q1. pure-Ends S P _ w1 q1)

  delete-Ends : (arg : PubrelArg) (w : World O) → P w → Ends S P (pubrel_delete h c p arg w)
  unfolding pubrel_delete
  delete-Ends arg w q =
      if_both {A = Outcome PubrelArg × World O} (Ends S P) arg.found_in_store
        (settle-Ends S P _ _
          (request h (some c) (asks_incoming_del p) (h.incoming_del (w.clients c).id p) w)
          (request-Ends h S P (Stable-Calm stable (some c)) (asks_incoming_del p)
            (h.incoming_del (w.clients c).id p) w (speaks.incoming_del (w.clients c).id p) q)
          (λ _ w1 q1. pure-Ends S P arg w1 q1) (λ e w1 _ q1. pure-Ends S P arg w1 q1))
        (pure-Ends S P arg w q)

  write-comp-Ends : (arg : PubrelArg) (w : World O) → P w → Ends S P (pubrel_write h c p arg w)
  unfolding pubrel_write
  write-comp-Ends arg w q =
      drop-Ends S P arg (write h c (pub_comp p) w)
        (write-Ends h S P stable speaks c (pub_comp p) w q)

  pub handle_pubrel-Ends : (w : World O) → P w → Ends S P (handle_pubrel h c p w)
  unfolding handle_pubrel pubrel_actions
  handle_pubrel-Ends w q = drop-Ends S P tt _ (
      run_series-Ends S P (pubrel_actions h c p) (record { found_in_store = false }) w
        (get-Ends, (delete-Ends, (write-comp-Ends, tt))) q)

  pub handle_ping-Ends : (w : World O) → P w → Ends S P (handle_ping h c p w)
  unfolding handle_ping
  handle_ping-Ends w q =
      write-Ends h S P stable speaks c (blank Cmd.pingresp) _
        (stable.noted (some c) (emitted ping_event) w q)
