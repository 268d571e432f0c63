-- ===== src/Handlers/Connect/Registering.antt =====
-- The actions of CONNECT from the registration on, for a client that is let in
-- (lib/handlers/connect.js).
use mathlib.Core.Path.{subst}
use aedes.Common.{ℕ, ◌≡◌, refl, sym, ap, ◌∙◌, true, false, ◌||◌, [], none, some, Text, if_true}
use aedes.Run.{pure}
use aedes.Dict.{Dict, absent, slot, put}
use aedes.Packet.{Packet}
use aedes.World.{
  Client, World, Host, Request, Event, requested, Written, taken, wrote, asks_authenticate,
  asks_clean_subscriptions, asks_del_will, asks_outgoing_stream, asks_pre_connect,
  connack_sent_event,
}
use aedes.World.Steps.{set_client, note, emit, request}
use aedes.Write.{after_write, write}
use aedes.Broker.Publishing.Still.{IsStill}
use aedes.Broker.Registry.Takeover.{register_client-absent}
use aedes.Handlers.Offline.{clear_queue}
use aedes.Handlers.Connect.{
  ConnectArg, connack, do_connack, registered, register, connack_action, empty_queue,
}
use aedes.Handlers.Connect.Ready.{
  IsWelcoming, IsReady, Ready, Goes, bind-Goes, set_client-Ready, note-Ready, meanwhile-Ready,
  request-Ready,
}

module _ {O : Type 0} (h : Host O) (c : ℕ) (p : Packet) (welcome : IsWelcoming h c p)
    (id : Text) where
  is_still : IsStill h
  is_still = record {
    still_registered = λ w. ap (λ b. b.clients) (welcome.same_broker w);
    still_counted = λ w. ap (λ b. b.connected_clients) (welcome.same_broker w);
    still_objects = welcome.same_clients;
  }

  pub register-Goes :
      (arg : ConnectArg) (d : Dict ℕ) (w : World O)
      → slot id d ≡ absent
      → Ready h c p welcome id d w
      → Goes h c p welcome id arg (put id c d) (register h c arg w)
  unfolding register registered
  register-Goes arg d w free ready =
      let (w', goes, same, entered) =
        register_client-absent h is_still c id w ready.client.named
          (ap (slot id) ready.dict ∙ free) in
      rw goes (
        refl,
        record {
          client = subst (λ heap. IsReady id (heap c)) (sym same) ready.client;
          dict = entered ∙ ap (put id c) ready.dict;
        },
      )

  after_taken :
      (q : Packet) (d : Dict ℕ) (r : Written) (w : World O)
      → r ≡ taken
      → Ready h c p welcome id d w
      → Goes h c p welcome id tt d (after_write h c q r w)
  unfolding after_write
  after_taken q d taken w e ready = (
    refl,
    meanwhile-Ready h c p welcome id d (note (some c) (wrote q) w)
        (note-Ready h c p welcome id d (wrote q) w ready),
  )
  after_taken q d aedes.World.threw w e ready = absurd (cc e)
  after_taken q d aedes.World.full w e ready = absurd (cc e)

  write-Goes :
      (q : Packet) (d : Dict ℕ) (w : World O)
      → Ready h c p welcome id d w
      → Goes h c p welcome id tt d (write h c q w)
  unfolding write
  write-Goes q d w ready =
      let sent =
        after_taken q d (h.write_to_stream c q w.outside).0
          (record w { outside = (h.write_to_stream c q w.outside).1 }) (welcome.takes q w.outside)
          (record { client = ready.client; dict = ready.dict }) in
      let live : ((w.clients c).connecting || (w.clients c).connected) ≡ true =
        ap (λ b. b || (w.clients c).connected) ready.client.is_connecting in
      subst (Goes h c p welcome id tt d)
        (sym (if_true ((w.clients c).connecting || (w.clients c).connected) _ _ live)) sent

  pub connack_action-Goes :
      (arg : ConnectArg) (d : Dict ℕ) (w : World O)
      → Ready h c p welcome id d w
      → Goes h c p welcome id arg d (connack_action h c arg w)
  unfolding connack_action do_connack
  connack_action-Goes arg d w ready =
      let ack = connack arg.return_code arg.session_present in
      bind-Goes h c p welcome id (λ _. pure arg) tt arg d d _
        (bind-Goes h c p welcome id _ tt tt d d (write h c ack w) (write-Goes ack d w ready)
          (λ w' r. (
            refl,
            set_client-Ready h c p welcome id d _ (emit none (connack_sent_event ack) w')
                (record {
                  is_connecting = r.client.is_connecting;
                  named = r.client.named;
                  no_will = r.client.no_will;
                })
                r.dict,
          )))
        (λ w' r. (refl, r))

  pub empty_queue-Goes :
      (arg : ConnectArg) (d : Dict ℕ) (w : World O)
      → Ready h c p welcome id d w
      → Goes h c p welcome id arg d (empty_queue h c arg w)
  unfolding empty_queue clear_queue
  empty_queue-Goes arg d w ready =
      let v = record (w.clients c) { paused = false } in
      let w1 = set_client c v w in
      bind-Goes h c p welcome id _ [] arg d d
        (request h (some c) asks_outgoing_stream (h.outgoing_stream (w.clients c).id) w1)
        (
          welcome.has_nothing (w.clients c).id w1.outside,
          request-Ready h c p welcome id d asks_outgoing_stream (h.outgoing_stream (w.clients c).id)
              w1
              (set_client-Ready h c p welcome id d v w
                (record {
                  is_connecting = ready.client.is_connecting;
                  named = ready.client.named;
                  no_will = ready.client.no_will;
                })
                ready.dict),
        )
        (λ w' r. (refl, r))
