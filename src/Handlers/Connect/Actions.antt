-- ===== src/Handlers/Connect/Actions.antt =====
-- The actions of CONNECT before the registration, for a client that is let in
-- (lib/handlers/connect.js).
use mathlib.Core.Path.{subst}
use aedes.Common.{
  ℕ, ◌≡◌, ◌≢◌, refl, sym, ap, ◌∙◌, Bool, true, false, ◌||◌, Option, none, some, Text, ltb, if_true,
  if_false, if_both,
}
use aedes.Run.{Outcome, done, fail, silent, pure, settle_with}
use aedes.Dict.{Dict}
use aedes.Packet.{Packet}
use aedes.World.{World, Host, asks_authenticate, asks_clean_subscriptions, asks_del_will}
use aedes.World.Steps.{set_client, request}
use aedes.World.Heap.{update_self}
use aedes.Handlers.Connect.{
  ConnectArg, authenticated, not_authenticated, authenticate, set_keep_alive, fetch_subs,
  put_will_of, store_will,
}
use aedes.Handlers.Connect.Ready.{
  IsWelcoming, Ready, Goes, bind-Goes, set_client-Ready, request-Ready,
}

module _ {O : Type 0} (h : Host O) (c : ℕ) (p : Packet) (welcome : IsWelcoming h c p)
    (id : Text) where
  settled :
      (arg : ConnectArg) (r : Outcome Bool × World O) (d : Dict ℕ)
      → r.0 ≡ done true
      → Ready h c p welcome id d r.1
      → (r.1.clients c).closed ≡ false
      → r.1.broker.closed ≡ false
      → Goes h c p welcome id arg d
          (settle_with (authenticated h c arg) (not_authenticated h c arg) r)
  unfolding authenticated
  settled arg (done false, w) d e ready open' broker_open = absurd (cc e)
  settled arg (done true, w) d e ready open' broker_open =
      let stays : ((w.clients c).closed || w.broker.closed) ≡ false =
        ap (λ x. x || w.broker.closed) open' ∙ broker_open in
      subst (Goes h c p welcome id arg d)
        (sym (if_false ((w.clients c).closed || w.broker.closed) _ _ stays))
        (
          refl,
          set_client-Ready h c p welcome id d (record (w.clients c) { authorized = true }) w
              (record {
                is_connecting = ready.client.is_connecting;
                named = ready.client.named;
                no_will = ready.client.no_will;
              })
              ready.dict,
        )
  settled arg (fail x, w) d e ready open' broker_open = absurd (cc e)
  settled arg (silent, w) d e ready open' broker_open = absurd (cc e)

  pub authenticate-Goes :
      (arg : ConnectArg) (d : Dict ℕ) (w : World O)
      → Ready h c p welcome id d w
      → (w.clients c).closed ≡ false
      → w.broker.closed ≡ false
      → Goes h c p welcome id arg d (authenticate h c p arg w)
  unfolding authenticate
  authenticate-Goes arg d w ready open' broker_open =
      let v = record (w.clients c) { paused = true } in
      let w1 = set_client c v w in
      let ready1 =
        set_client-Ready h c p welcome id d v w
          (record {
            is_connecting = ready.client.is_connecting;
            named = ready.client.named;
            no_will = ready.client.no_will;
          })
          ready.dict in
      settled arg
        (request h (some c) (asks_authenticate p) (h.authenticate c p.username p.password) w1) d
        (welcome.authenticates w1.outside)
        (request-Ready h c p welcome id d (asks_authenticate p)
          (h.authenticate c p.username p.password) w1 ready1)
        (ap (λ heap. (heap c).closed) (welcome.same_clients _)
          ∙ ap (λ x. x.closed) (update_self w1.clients c _)
          ∙ ap (λ x. x.closed) (update_self w.clients c v)
          ∙ open')
        (ap (λ b. b.closed) (welcome.same_broker _) ∙ broker_open)

  pub set_keep_alive-Goes :
      (arg : ConnectArg) (d : Dict ℕ) (w : World O)
      → Ready h c p welcome id d w
      → Goes h c p welcome id arg d (set_keep_alive h c p arg w)
  unfolding set_keep_alive
  set_keep_alive-Goes arg d w ready = (
    refl,
    if_both (Ready h c p welcome id d) (ltb 0 p.keepalive)
        (set_client-Ready h c p welcome id d _ w
          (record {
            is_connecting = ready.client.is_connecting;
            named = ready.client.named;
            no_will = ready.client.no_will;
          })
          ready.dict)
        ready,
  )

  pub fetch_subs-Goes :
      (arg : ConnectArg) (d : Dict ℕ) (w : World O)
      → p.clean ≡ true
      → Ready h c p welcome id d w
      → Goes h c p welcome id (record arg { session_present = false }) d (fetch_subs h c p arg w)
  unfolding fetch_subs
  fetch_subs-Goes arg d w clean ready =
      subst (Goes h c p welcome id (record arg { session_present = false }) d)
        (sym (if_true p.clean _ _ clean))
        (bind-Goes h c p welcome id (λ _. pure (record arg { session_present = false })) tt
          (record arg { session_present = false }) d d
          (request h (some c) asks_clean_subscriptions (h.clean_subscriptions (w.clients c).id) w)
          (
            welcome.cleans (w.clients c).id w.outside,
            request-Ready h c p welcome id d asks_clean_subscriptions
                (h.clean_subscriptions (w.clients c).id) w ready,
          )
          (λ w' r. (refl, r)))

  no_will_put :
      (d : Dict ℕ) (will : Option Packet) (w : World O)
      → will ≡ none
      → Ready h c p welcome id d w
      → Goes h c p welcome id tt d (put_will_of h c will w)
  unfolding put_will_of
  no_will_put d none w e ready = (refl, ready)
  no_will_put d (some q) w e ready = absurd (cc e)

  will_deleted :
      (d : Dict ℕ) (r : Outcome (Unit {0}) × World O)
      → r.0 ≢ silent
      → (r.1.clients c).will ≡ none
      → Ready h c p welcome id d r.1
      → Goes h c p welcome id tt d (
          settle_with
            (λ _ v. put_will_of h c (v.clients c).will v)
            (λ _ v. put_will_of h c (v.clients c).will v)
            r)
  will_deleted d (done x, w) answers e ready = no_will_put d (w.clients c).will w e ready
  will_deleted d (fail x, w) answers e ready = no_will_put d (w.clients c).will w e ready
  will_deleted d (silent, w) answers e ready = absurd (answers refl)

  pub store_will-Goes :
      (arg : ConnectArg) (d : Dict ℕ) (w : World O)
      → Ready h c p welcome id d w
      → Goes h c p welcome id arg d (store_will h c arg w)
  unfolding store_will
  store_will-Goes arg d w ready =
      let v = record (w.clients c) { will = (w.clients c).pending_will } in
      let w1 = set_client c v w in
      let ready1 =
        set_client-Ready h c p welcome id d v w
          (record {
            is_connecting = ready.client.is_connecting;
            named = ready.client.named;
            no_will = ready.client.no_will;
          })
          ready.dict in
      let asked = (w1.clients c).id in
      bind-Goes h c p welcome id (λ _. pure arg) tt arg d d _
        (will_deleted d (request h (some c) asks_del_will (h.del_will asked) w1)
          (welcome.deletes_will asked w1.outside)
          (ap (λ heap. (heap c).will) (welcome.same_clients _)
            ∙ ap (λ x. x.will) (update_self w1.clients c _)
            ∙ ap (λ x. x.will) (update_self w.clients c v)
            ∙ ready.client.no_will)
          (request-Ready h c p welcome id d asks_del_will (h.del_will asked) w1 ready1))
        (λ w' r. (refl, r))
