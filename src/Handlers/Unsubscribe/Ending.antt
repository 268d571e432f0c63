-- ===== src/Handlers/Unsubscribe/Ending.antt =====
-- How UNSUBSCRIBE ends (lib/handlers/unsubscribe.js).
use aedes.Common.{
  ℕ, ◌≡◌, refl, List, [], ◌∷◌, Option, none, some, Text, ltb, if_both, inl, inr, Option-cases,
}
use aedes.Run.{Outcome, done, fail, silent, both}
use aedes.Dict.{Slot, absent, builtin, own, slot}
use aedes.Topic.{topic_level_count}
use aedes.World.{World, Host, Func, Subscription, asks_mq_remove, asks_remove_subscriptions}
use aedes.World.Ends.{
  Speaks, Stable, Stable-Calm, Ends, pure-Ends, throw-Ends, bind-Ends, bind_ends, request-Ends,
}
use aedes.World.Steps.{request}
use aedes.Write.Ending.{write-Ends}
use aedes.Handlers.Subscribe.{mq_unsubscribe}
use aedes.Handlers.Unsubscribe.{
  unsub_ack, first_error, delete_subscription, unsubscribe_slot, do_unsubscribe, unsubscribe_all,
  acknowledge_unsubscribe, complete_unsubscribe, actual_unsubscribe, unsubscribe_valid,
  handle_unsubscribe,
}

-- Items that come to an end one after the other come to an end together.
pub both-ends :
    (S : Type 0) (r rs : Outcome (Unit {0}))
    → (r ≡ silent → S)
    → (rs ≡ silent → S)
    → both r rs ≡ silent
    → S
both-ends S (fail e) rs a b x = cc
both-ends S (done tt) rs a b x = b x
both-ends S silent rs a b x = a refl

module _ {O : Type 0} (h : Host O) (S : Type 0) (P : World O → Type 0) (stable : Stable h P)
    (speaks : Speaks h S) (c : ℕ) where
  pub mq_unsubscribe-Ends :
      (t : Text) (f : Option Func) (w : World O) → P w → Ends S P (mq_unsubscribe h c t f w)
  unfolding mq_unsubscribe
  mq_unsubscribe-Ends t f w q =
      if_both {A = Outcome (Unit {0}) × World O} (Ends S P)
        (ltb w.broker.max_topic_levels (topic_level_count (some t))) (throw-Ends S P _ w q)
        (request-Ends h S P (Stable-Calm stable (some c)) (asks_mq_remove t f) (h.mq_remove c t f) w
          (speaks.mq_remove c t f) q)

  removed-Ends :
      (t : Text) (f : Option Func) (w : World O)
      → P w
      → Ends S P (
          aedes.Run.continue_with
            (λ _ v. aedes.Run.pure tt (delete_subscription h c t v))
            (mq_unsubscribe h c t f w))
  unfolding delete_subscription
  removed-Ends t f w q =
      bind-Ends S P _ (mq_unsubscribe h c t f w) (mq_unsubscribe-Ends t f w q)
        (λ _ v _ q1. pure-Ends S P tt (delete_subscription h c t v) (stable.set c _ v refl q1))

  unsubscribe_slot-Ends :
      (t : Text) (s : Slot Subscription) (w : World O) → P w → Ends S P (unsubscribe_slot h c t s w)
  unfolding unsubscribe_slot
  unsubscribe_slot-Ends t absent w q = pure-Ends S P tt w q
  unsubscribe_slot-Ends t builtin w q = removed-Ends t none w q
  unsubscribe_slot-Ends t (own s) w q = removed-Ends t (some s.func) w q

  pub unsubscribe_all-Ends :
      (ts : List Text) (w : World O) → P w → Ends S P (unsubscribe_all h c ts w)
  unfolding unsubscribe_all do_unsubscribe
  unsubscribe_all-Ends [] w q = (q, λ e. cc)
  unsubscribe_all-Ends (t ∷ ts) w q =
      let r = do_unsubscribe h c t w in
      let now = unsubscribe_slot-Ends t (slot t (w.clients c).subscriptions) w q in
      let rest = unsubscribe_all-Ends ts r.1 now.0 in
      (rest.0, both-ends S r.0 (unsubscribe_all h c ts r.1).0 now.1 rest.1)

  -- An error is also reported on the client, which closes it.
  complete-ends :
      (id : Option ℕ) (ts : List Text) (r : Outcome (Unit {0}) × World O)
      → Ends S P r
      → (complete_unsubscribe h c id ts r).0 ≡ silent
      → S
  unfolding complete_unsubscribe acknowledge_unsubscribe
  complete-ends id ts (silent, w) (q, ends) e = ends refl
  complete-ends id ts (fail x, w) (q, ends) e = cc
  complete-ends none ts (done tt, w) (q, ends) e = cc
  complete-ends (some i) ts (done tt, w) (q, ends) e =
      (write-Ends h S P stable speaks c (unsub_ack (some i)) w q).1 e

  actual-ends :
      (id : Option ℕ) (ts : List Text) (w : World O)
      → P w
      → (actual_unsubscribe h c id ts w).0 ≡ silent
      → S
  unfolding actual_unsubscribe
  actual-ends id ts w q =
      complete-ends id ts (unsubscribe_all h c ts w) (unsubscribe_all-Ends ts w q)

  valid-ends :
      (id : Option ℕ) (ts : List Text) (w : World O)
      → P w
      → (unsubscribe_valid h c id ts w).0 ≡ silent
      → S
  unfolding unsubscribe_valid
  valid-ends none ts w q = actual-ends none ts w q
  valid-ends (some i) ts w q =
      if_both {A = Outcome (Unit {0}) × World O} (λ r. r.0 ≡ silent → S) (w.clients c).clean
        (actual-ends (some i) ts w q)
        (bind_ends S P _
          (request h (some c) (asks_remove_subscriptions ts)
            (h.remove_subscriptions (w.clients c).id ts) w)
          (request-Ends h S P (Stable-Calm stable (some c)) (asks_remove_subscriptions ts)
            (h.remove_subscriptions (w.clients c).id ts) w
            (speaks.remove_subscriptions (w.clients c).id ts) q)
          (λ _ w1 q1. actual-ends (some i) ts w1 q1))

  pub handle_unsubscribe-ends :
      (id : Option ℕ) (ts : List Text) (w : World O)
      → P w
      → (handle_unsubscribe h c id ts w).0 ≡ silent
      → S
  unfolding handle_unsubscribe
  handle_unsubscribe-ends id ts w q =
      elim (Option-cases (first_error w.broker.max_topic_levels ts)) [
        | inl valid ↦ rw (valid, handle_unsubscribe) (valid-ends id ts w q)
        | inr (e, wrong) ↦ rw (wrong, handle_unsubscribe) (λ x. cc)
      ]
