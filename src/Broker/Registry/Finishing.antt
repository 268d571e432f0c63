-- ===== src/Broker/Registry/Finishing.antt =====
-- What the end of a `close` does to the registry (`finish` of lib/client.js).
use aedes.Common.{
  ℕ, ◌+◌, ◌-◌, ◌==◌, ◌≡◌, refl, ap, ◌∙◌, true, false, Option, none, some, Text, text_eq_refl,
  if_both,
}
use aedes.Dict.{get, put, remove}
use aedes.Dict.Laws.{get-put, get-remove, slot-own}
use aedes.Packet.{Packet}
use aedes.World.{World, Host, asks_authorize_publish, asks_del_will, destroyed}
use aedes.World.Ends.{Calm, Ends, settle-Ends, request-Ends, speaks_of_nothing}
use aedes.Broker.Publishing.Ending.{publish-Ends}
use aedes.World.Heap.{update_self, update_other}
use aedes.World.Steps.{set_client, note}
use aedes.Session.Drain.Kept.{KeepsIdentity, finish_drains-KeepsIdentity}
use aedes.Broker.Publishing.Still.{Holds, Stands, IsStill, publish-Holds, Stands-refl, Stands-Calm}
use aedes.Broker.Registry.{
  key_of, announce, delete_client, unregister_client, finish_register_client, close_done,
  delete_will, end_will, end_client, finish_close_of, finish_without_will, end_registration,
  finish_close,
}

module _ {O : Type 0} (h : Host O) (c : ℕ) (P : World O → Type 0) (calm : Calm h (some c) P) where
  delete_will-Calm : (w : World O) → P w → Ends (Unit {0}) P (delete_will h c w)
  unfolding delete_will
  delete_will-Calm w a =
      request-Ends h (Unit {0}) P calm asks_del_will (h.del_will (w.clients c).id) w (λ o e. tt) a

  -- The end of a will, published or not, keeps what the calls of the code outside keep.
  pub end_will-Calm : (will : Option Packet) (w : World O) → P w → P (end_will h c will w)
  unfolding end_will
  end_will-Calm none w a = a
  end_will-Calm (some will) w a =
      if_both P (w.clients c).disconnected (delete_will-Calm w a).0
        (settle-Ends (Unit {0}) P _ _ _
          (request-Ends h (Unit {0}) P calm (asks_authorize_publish will)
            (h.authorize_publish (some c) will) w (λ o e. tt) a)
          (λ will' w1 q1.
            settle-Ends (Unit {0}) P _ _ _
              (publish-Ends h (Unit {0}) P calm (speaks_of_nothing h) will' w1 q1)
              (λ _ w2 q2. delete_will-Calm w2 q2) (λ e w2 _ q2. delete_will-Calm w2 q2))
          (λ e w1 _ q1. delete_will-Calm w1 q1)).0

module _ {O : Type 0} (h : Host O) where
  end_registration-unregister_client :
      (c b : ℕ) (id : Text) (w : World O)
      → (w.clients c).authorized ≡ true
      → (w.clients c).id ≡ some id
      → get id w.broker.clients ≡ some b
      → end_registration h c w ≡ unregister_client h c w
  unfolding end_registration
  end_registration-unregister_client c b id w authorized named found =
      simp (named, slot-own id b w.broker.clients found, authorized)

  -- What a client is when its `close` comes to an end.
  ended : ℕ → World O → World O
  unfolding end_client
  ended c w = set_client c (end_client (w.clients c)) w

  ended-client : (c : ℕ) (w : World O) → (ended c w).clients c ≡ end_client (w.clients c)
  unfolding ended
  ended-client c w = update_self w.clients c (end_client (w.clients c))

  ended-KeepsIdentity : (c : ℕ) (w : World O) → KeepsIdentity (w.clients c) ((ended c w).clients c)
  unfolding end_client
  ended-KeepsIdentity c w =
      let kept = finish_drains-KeepsIdentity (w.clients c) in
      record {
        same_id = ap (λ v. v.id) (ended-client c w) ∙ kept.same_id;
        same_authorized = ap (λ v. v.authorized) (ended-client c w) ∙ kept.same_authorized;
      }

  -- A client under whose id a client is registered takes the registration away when its `close`
  -- comes to an end, after its will, and then the callback of `close` is called.
  finish_close-unregister_client :
      (c : ℕ) (done : Option ℕ) (b : ℕ) (id : Text) (w : World O)
      → (w.clients c).closing ≡ some done
      → let v = end_will h c (w.clients c).will w in
        (v.clients c).authorized ≡ true
        → (v.clients c).id ≡ some id
        → get id v.broker.clients ≡ some b
        → finish_close h c w
          ≡ close_done h done (note (some c) destroyed (unregister_client h c (ended c v)))
  unfolding finish_close finish_close_of finish_without_will ended
  finish_close-unregister_client c done b id w closing authorized named found =
      let v = end_will h c (w.clients c).will w in
      let kept = ended-KeepsIdentity c v in
      ap (λ x. finish_close_of h c x w) closing
      ∙ ap (λ x. close_done h done (note (some c) destroyed x))
          (end_registration-unregister_client c b id (ended c v) (kept.same_authorized ∙ authorized)
            (kept.same_id ∙ named) found)

  module _ (still : IsStill h) where
    -- The end of a will changes no registration and nobody's identity.
    end_will-Stands :
        (c : ℕ) (will : Option Packet) (w : World O)
        → Stands w.broker.clients w.clients (end_will h c will w)
    end_will-Stands c will w =
        end_will-Calm h c _ (Stands-Calm h still w.broker.clients w.clients (some c)) will w
          (Stands-refl w)

    unregister_client-Holds :
        (c : ℕ) (w : World O)
        → Holds
            (remove (key_of (w.clients c).id) w.broker.clients)
            (w.broker.connected_clients - 1)
            w.clients
            (unregister_client h c w)
    unfolding unregister_client announce delete_client
    unregister_client-Holds c w =
        publish-Holds h still _ _ _ _ _
          (record { registered = refl; counted = refl; objects = refl })

    pub finish_register_client-Holds :
        (c : ℕ) (w : World O)
        → Holds
            (put (key_of (w.clients c).id) c w.broker.clients)
            (w.broker.connected_clients + 1)
            w.clients
            (finish_register_client h c w)
    unfolding finish_register_client announce
    finish_register_client-Holds c w =
        publish-Holds h still _ _ _ _ _
          (record { registered = refl; counted = refl; objects = refl })

    -- Once the `close` of a client has ended, another is registered under its id if `close` was to
    -- register it, and none otherwise.
    pub finish_close-registered :
        (c b e : ℕ) (id : Text) (w : World O)
        → (w.clients c).closing ≡ some (some e)
        → (w.clients c).authorized ≡ true
        → (w.clients c).id ≡ some id
        → get id w.broker.clients ≡ some b
        → (e == c) ≡ false
        → (w.clients e).id ≡ some id
        → get id (finish_close h c w).broker.clients ≡ some e
    unfolding close_done ended
    finish_close-registered c b e id w closing authorized named found other named' =
        let v = end_will h c (w.clients c).will w in
        let a = end_will-Stands c (w.clients c).will w in
        let u = unregister_client h c (ended c v) in
        let left = unregister_client-Holds c (ended c v) in
        let w' = note (some c) destroyed u in
        let same : (w'.clients e).id ≡ some id =
          ap (λ x. x.id) (update_other u.clients c _ e other)
          ∙ ap (λ heap. (heap e).id) left.objects
          ∙ ap (λ x. x.id) (update_other v.clients c _ e other)
          ∙ (a.same e).same_id
          ∙ named' in
        ap (λ x. get id x.broker.clients)
          (finish_close-unregister_client c (some e) b id w closing
            ((a.same c).same_authorized ∙ authorized) ((a.same c).same_id ∙ named)
            (ap (get id) a.stands ∙ found))
        ∙ ap (get id) (finish_register_client-Holds e w').registered
        ∙ ap (λ k. get id (put (key_of k) e w'.broker.clients)) same
        ∙ get-put id id e w'.broker.clients
        ∙ rw (text_eq_refl) refl

    pub finish_close-unregistered :
        (c b : ℕ) (id : Text) (w : World O)
        → (w.clients c).closing ≡ some none
        → (w.clients c).authorized ≡ true
        → (w.clients c).id ≡ some id
        → get id w.broker.clients ≡ some b
        → get id (finish_close h c w).broker.clients ≡ none
    unfolding close_done ended
    finish_close-unregistered c b id w closing authorized named found =
        let v = end_will h c (w.clients c).will w in
        let a = end_will-Stands c (w.clients c).will w in
        ap (λ x. get id x.broker.clients)
          (finish_close-unregister_client c none b id w closing
            ((a.same c).same_authorized ∙ authorized) ((a.same c).same_id ∙ named)
            (ap (get id) a.stands ∙ found))
        ∙ ap (get id) (unregister_client-Holds c (ended c v)).registered
        ∙ ap (λ k. get id (remove (key_of k) v.broker.clients))
            ((ended-KeepsIdentity c v).same_id ∙ (a.same c).same_id ∙ named)
        ∙ get-remove id id v.broker.clients
        ∙ rw (text_eq_refl) refl
