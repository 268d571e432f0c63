-- ===== src/Broker/Registry/Closed.antt =====
-- Closed clients: `close` of lib/client.js, and what it calls of aedes.js.
use mathlib.Core.Path.{subst}
use aedes.World.Heap.{update_self}
use aedes.Common.{
  Bool, ℕ, ◌≡◌, refl, ◌&&◌, true, Option, none, some, Text, if_both, if_true, if_false, Bool-cases,
  inl, inr, sym, ap,
}
use aedes.World.{World, Host, destroyed}
use aedes.World.Ends.{Stable-Calm, speaks_of_nothing, Stable}
use aedes.World.Closed.{IsClosed, AreBoth-Stable, set_client-AreBoth}
use aedes.World.Steps.{set_client}
use aedes.Dict.{slot}
use aedes.Session.Drain.Kept.{finish_drains-closed}
use aedes.Broker.Publishing.Ending.{publish-Ends}
use aedes.Broker.Registry.{
  key_of, is_truthy, announce, announcement, unregister_client, finish_register_client, close_done,
  close, begin_close, end_will, end_client, delete_client, finish_close_of, finish_without_will,
  end_registration, finish_close,
}
use aedes.Broker.Registry.Finishing.{end_will-Calm}

pub close_closes :
    {O : Type 0} (h : Host O) (b : Bool) (c : ℕ) (w : World O)
    → w.broker.closed ≡ b
    → IsClosed b c (close h c none w)
unfolding close close_done begin_close
close_closes h b c w q =
    let w' = set_client c (begin_close (w.clients c) none) w in
    elim (Bool-cases (w.clients c).closed) [
      | inl e ↦ subst (IsClosed b c) (sym (if_true (w.clients c).closed w w' e)) (e, q)
      | inr e ↦
          subst (IsClosed b c) (sym (if_false (w.clients c).closed w w' e))
            (ap (λ v. v.closed) (update_self w.clients c (begin_close (w.clients c) none)), q)
    ]

module _ {O : Type 0} (h : Host O) (b : Bool) (c : ℕ)
    (stays : (w : World O) → IsClosed b c w → IsClosed b c (h.meanwhile w)) where
  stable : Stable h (IsClosed b c)
  stable = AreBoth-Stable true b c h stays

  announce-IsClosed :
      (suffix : Text) (id : Option Text) (w : World O)
      → IsClosed b c w
      → IsClosed b c (announce h suffix id w)
  unfolding announce
  announce-IsClosed suffix id w q =
      (publish-Ends h (Unit {0}) (IsClosed b c) (Stable-Calm stable none) (speaks_of_nothing h)
        (announcement suffix w.broker.id id) w q).0

  unregister_client-IsClosed :
      (i : ℕ) (w : World O) → IsClosed b c w → IsClosed b c (unregister_client h i w)
  unfolding unregister_client delete_client
  unregister_client-IsClosed i w q = announce-IsClosed _ (w.clients i).id _ q

  close_done-IsClosed :
      (done : Option ℕ) (w : World O) → IsClosed b c w → IsClosed b c (close_done h done w)
  unfolding close_done finish_register_client
  close_done-IsClosed none w q = q
  close_done-IsClosed (some i) w q = announce-IsClosed _ (w.clients i).id _ q

  pub close-IsClosed :
      (i : ℕ) (done : Option ℕ) (w : World O) → IsClosed b c w → IsClosed b c (close h i done w)
  unfolding close begin_close
  close-IsClosed i done w q =
      if_both (IsClosed b c) (w.clients i).closed (close_done-IsClosed done w q)
        (set_client-AreBoth true b c i (begin_close (w.clients i) done) w refl q)

  end_client-IsClosed :
      (i : ℕ) (w : World O)
      → IsClosed b c w
      → IsClosed b c (set_client i (end_client (w.clients i)) w)
  unfolding end_client
  end_client-IsClosed i w q =
      stable.set i (end_client (w.clients i)) w (finish_drains-closed (w.clients i)) q

  finish_close_of-IsClosed :
      (i : ℕ) (closing : Option (Option ℕ)) (w : World O)
      → IsClosed b c w
      → IsClosed b c (finish_close_of h i closing w)
  unfolding finish_close_of finish_without_will end_registration
  finish_close_of-IsClosed i none w q = q
  finish_close_of-IsClosed i (some done) w q =
      let w1 = end_will h i (w.clients i).will w in
      let q1 =
        end_will-Calm h i (IsClosed b c) (Stable-Calm stable (some i)) (w.clients i).will w q in
      let w2 = set_client i (end_client (w1.clients i)) w1 in
      let q2 = end_client-IsClosed i w1 q1 in
      close_done-IsClosed done _ (
        stable.noted (some i) destroyed (end_registration h i w2) (
          if_both (IsClosed b c)
            (is_truthy (slot (key_of (w2.clients i).id) w2.broker.clients)
              && (w2.clients i).authorized)
            (unregister_client-IsClosed i w2 q2) q2))

  pub finish_close-IsClosed :
      (i : ℕ) (w : World O) → IsClosed b c w → IsClosed b c (finish_close h i w)
  unfolding finish_close
  finish_close-IsClosed i w q = finish_close_of-IsClosed i (w.clients i).closing w q
