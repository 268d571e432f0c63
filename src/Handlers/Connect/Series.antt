-- ===== src/Handlers/Connect/Series.antt =====
-- The actions of CONNECT one after the other (lib/handlers/connect.js).
use aedes.Common.{ℕ, ◌≡◌, refl, ap, ◌∙◌, true, false, List, [], ◌∷◌, Text}
use aedes.Run.{Outcome, done, fail, silent, M, run_series}
use aedes.Dict.{Dict, absent, slot, put}
use aedes.Packet.{Packet}
use aedes.World.{World, Host}
use aedes.World.Steps.{set_client}
use aedes.World.Heap.{update_self}
use aedes.Handlers.Connect.{
  ConnectArg, restore, restore_subs, store_will, register, connack_action, empty_queue,
  connect_actions, after_series,
}
use aedes.Handlers.Connect.Ready.{IsWelcoming, start, Ready, Goes, bind-Goes}
use aedes.Handlers.Connect.Actions.{
  authenticate-Goes, set_keep_alive-Goes, fetch_subs-Goes, store_will-Goes,
}
use aedes.Handlers.Connect.Registering.{register-Goes, connack_action-Goes, empty_queue-Goes}

module _ {O : Type 0} (h : Host O) (c : ℕ) (p : Packet) (welcome : IsWelcoming h c p)
    (id : Text) where
  first-Goes :
      (action : ConnectArg → M (World O) ConnectArg)
      (actions : List (ConnectArg → M (World O) ConnectArg)) (arg arg' : ConnectArg) (d d' : Dict ℕ)
      (w : World O)
      → Goes h c p welcome id arg d (action arg w)
      → ((w' : World O)
          → Ready h c p welcome id d w'
          → Goes h c p welcome id arg' d' (run_series actions arg w'))
      → Goes h c p welcome id arg' d' (run_series (action ∷ actions) arg w)
  unfolding run_series
  first-Goes action actions arg arg' d d' w g go =
      bind-Goes h c p welcome id (run_series actions) arg arg' d d' (action arg w) g go

  last-Goes :
      (arg : ConnectArg) (d : Dict ℕ) (w : World O)
      → Ready h c p welcome id d w
      → Goes h c p welcome id arg d (run_series [] arg w)
  unfolding run_series
  last-Goes arg d w ready = (refl, ready)

  restore_subs-Goes :
      (d : Dict ℕ) (w : World O)
      → Ready h c p welcome id d w
      → Goes h c p welcome id start d (restore_subs h c start w)
  unfolding restore_subs restore
  restore_subs-Goes d w ready = (refl, ready)

  -- The series of actions, in two parts.
  registering-Goes :
      (d : Dict ℕ) (w : World O)
      → slot id d ≡ absent
      → Ready h c p welcome id d w
      → Goes h c p welcome id start (put id c d) (
          run_series
            (restore_subs h c
              ∷ store_will h c
              ∷ register h c
              ∷ connack_action h c
              ∷ empty_queue h c
              ∷ [])
            start
            w)
  registering-Goes d w free ready =
      let d' = put id c d in
      first-Goes _ _ start start d d' w (restore_subs-Goes d w ready) (λ w1 r1.
        first-Goes _ _ start start d d' w1 (store_will-Goes h c p welcome id start d w1 r1)
          (λ w2 r2.
            first-Goes _ _ start start d' d' w2 (register-Goes h c p welcome id start d w2 free r2)
              (λ w3 r3.
                first-Goes _ _ start start d' d' w3
                  (connack_action-Goes h c p welcome id start d' w3 r3)
                  (λ w4 r4.
                    first-Goes _ _ start start d' d' w4
                      (empty_queue-Goes h c p welcome id start d' w4 r4)
                      (λ w5 r5. last-Goes start d' w5 r5)))))

  pub series-Goes :
      (d : Dict ℕ) (w : World O)
      → p.clean ≡ true
      → slot id d ≡ absent
      → Ready h c p welcome id d w
      → (w.clients c).closed ≡ false
      → w.broker.closed ≡ false
      → Goes h c p welcome id start (put id c d) (run_series (connect_actions h c p) start w)
  unfolding connect_actions
  series-Goes d w clean free ready open' broker_open =
      let d' = put id c d in
      first-Goes _ _ start start d d' w
        (authenticate-Goes h c p welcome id start d w ready open' broker_open)
        (λ w1 r1.
          first-Goes _ _ start start d d' w1 (set_keep_alive-Goes h c p welcome id start d w1 r1)
            (λ w2 r2.
              first-Goes _ _ start start d d' w2
                (fetch_subs-Goes h c p welcome id start d w2 clean r2)
                (λ w3 r3. registering-Goes d w3 free r3)))

  -- What the end of CONNECT leaves: the client is connected and registered.
  abbrev pub Connected : Dict ℕ → Outcome (Unit {0}) × World O → Type 0
  Connected d r = (r.0 ≡ done tt) × ((r.1.clients c).connected ≡ true) × (r.1.broker.clients ≡ d)

  pub after_series-Connected :
      (d : Dict ℕ) (r : Outcome ConnectArg × World O)
      → Goes h c p welcome id start d r
      → Connected d (after_series h c r)
  unfolding after_series
  after_series-Connected d (done a, w) g =
      let w' = set_client c (record (w.clients c) { connecting = false; connected = true }) w in
      (
        refl,
        ap (λ v. v.connected) (update_self w'.clients c _)
            ∙ ap (λ v. v.connected) (update_self w.clients c _),
        g.1.dict,
      )
  after_series-Connected d (fail e, w) g = absurd (cc (g.0))
  after_series-Connected d (silent, w) g = absurd (cc (g.0))
