-- ===== src/Handlers/Unsubscribe/Removal.antt =====
-- What UNSUBSCRIBE does to the subscriptions of a client (lib/handlers/unsubscribe.js).
use aedes.Common.{
  ℕ, ◌≡◌, refl, ap, ◌∙◌, List, [], ◌∷◌, ◌++◌, Option, none, some, Text, text_eq, text_eq_iff, any,
  ltb, if◌then◌else◌, if_both, arith, inl, inr, Option-cases,
}
use aedes.Errors.{Error, unsubscribe_verb}
use aedes.Run.{Outcome, done, fail, silent, pure, continue_with, both}
use aedes.Dict.{Dict, Slot, absent, builtin, own, slot, get}
use aedes.Dict.Laws.{get-remove, get-slot_absent}
use aedes.Topic.{topic_level_count, validate_topic}
use aedes.World.{World, Host, Func, Subscription}
use aedes.Delivery.{IsSteady}
use aedes.World.Heap.{update_self}
use aedes.Handlers.Subscribe.{mq_unsubscribe}
use aedes.Handlers.Unsubscribe.{
  first_error, delete_subscription, unsubscribe_slot, do_unsubscribe, unsubscribe_all,
  handle_unsubscribe,
}

-- The subscription of the client to a topic.
abbrev pub subscribed : {O : Type 0} → ℕ → Text → World O → Option Subscription
subscribed c topic w = get topic (w.clients c).subscriptions

both-done : (r rs : Outcome (Unit {0})) → both r rs ≡ done tt → (r ≡ done tt) × (rs ≡ done tt)
both-done (done tt) rs e = (refl, e)
both-done (fail x) rs e = cc
both-done silent (done y) e = cc
both-done silent (fail y) e = cc
both-done silent silent e = cc

module _ {O : Type 0} (h : Host O) (c : ℕ) (steady : IsSteady h c) where
  mq_unsubscribe-subscriptions :
      (topic : Text) (func : Option Func) (w : World O)
      → ((mq_unsubscribe h c topic func w).1.clients c).subscriptions ≡ (w.clients c).subscriptions
  unfolding mq_unsubscribe
  mq_unsubscribe-subscriptions topic func w =
      if_both {A = Outcome (Unit {0}) × World O}
        (λ r. (r.1.clients c).subscriptions ≡ (w.clients c).subscriptions)
        (ltb w.broker.max_topic_levels (topic_level_count (some topic))) refl
        (ap (λ v. v.subscriptions) (steady _)
          ∙ ap (λ v. v.subscriptions) (update_self w.clients c _))

  deleted :
      (t topic : Text) (d : Dict Subscription) (r : Outcome (Unit {0}) × World O)
      → (r.1.clients c).subscriptions ≡ d
      → (continue_with (λ _ v. pure tt (delete_subscription h c topic v)) r).0 ≡ done tt
      → subscribed c t (continue_with (λ _ v. pure tt (delete_subscription h c topic v)) r).1
        ≡ (if text_eq topic t then none else get t d)
  unfolding delete_subscription
  deleted t topic d (done tt, w) e ok =
      ap (λ v. get t v.subscriptions) (update_self w.clients c _)
      ∙ get-remove topic t (w.clients c).subscriptions
      ∙ ap (λ x. if text_eq topic t then none else get t x) e
  deleted t topic d (fail x, w) e ok = cc
  deleted t topic d (silent, w) e ok = cc

  unsubscribe_slot-subscribed :
      (t topic : Text) (s : Slot Subscription) (w : World O)
      → slot topic (w.clients c).subscriptions ≡ s
      → (unsubscribe_slot h c topic s w).0 ≡ done tt
      → subscribed c t (unsubscribe_slot h c topic s w).1
        ≡ (if text_eq topic t then none else subscribed c t w)
  unfolding unsubscribe_slot
  unsubscribe_slot-subscribed t topic absent w at ok =
      ground (arith, get-slot_absent topic (w.clients c).subscriptions, text_eq_iff topic t)
  unsubscribe_slot-subscribed t topic builtin w at ok =
      deleted t topic _ (mq_unsubscribe h c topic none w)
        (mq_unsubscribe-subscriptions topic none w) ok
  unsubscribe_slot-subscribed t topic (own s) w at ok =
      deleted t topic _ (mq_unsubscribe h c topic (some s.func) w)
        (mq_unsubscribe-subscriptions topic (some s.func) w) ok

  do_unsubscribe-subscribed :
      (t topic : Text) (w : World O)
      → (do_unsubscribe h c topic w).0 ≡ done tt
      → subscribed c t (do_unsubscribe h c topic w).1
        ≡ (if text_eq topic t then none else subscribed c t w)
  unfolding do_unsubscribe
  do_unsubscribe-subscribed t topic w ok =
      unsubscribe_slot-subscribed t topic (slot topic (w.clients c).subscriptions) w refl ok

  -- If other tasks leave the client alone and all topics could be unsubscribed from, then the client
  -- has no subscription to any of them, and its subscriptions to other topics are as they were.
  pub unsubscribe_all-subscribed :
      (t : Text) (topics : List Text) (w : World O)
      → (unsubscribe_all h c topics w).0 ≡ done tt
      → subscribed c t (unsubscribe_all h c topics w).1
        ≡ (if any (λ topic. text_eq topic t) topics then none else subscribed c t w)
  unfolding unsubscribe_all
  unsubscribe_all-subscribed t [] w ok = refl
  unsubscribe_all-subscribed t (topic ∷ topics) w ok =
      let r = do_unsubscribe h c topic w in
      let (first, rest) = both-done r.0 (unsubscribe_all h c topics r.1).0 ok in
      let now = do_unsubscribe-subscribed t topic w first in
      let later = unsubscribe_all-subscribed t topics r.1 rest in later ∙ ground (arith, now)

first_error-some :
    (max_levels : ℕ) (before after : List Text) (topic : Text) (e : Error)
    → validate_topic (some topic) unsubscribe_verb max_levels ≡ some e
    → (e' : Error) × (first_error max_levels (before ++ (topic ∷ after)) ≡ some e')
unfolding first_error
first_error-some m [] after topic e wrong = (e, rw (wrong, first_error) refl)
first_error-some m (t ∷ before) after topic e wrong =
    elim (Option-cases (validate_topic (some t) unsubscribe_verb m)) [
      | inl missing ↦ rw (missing, first_error) (first_error-some m before after topic e wrong)
      | inr (e', there) ↦ (e', rw (there, first_error) refl)
    ]

-- If validateTopic rejects one of its topics, then an UNSUBSCRIBE ends with an error and changes
-- nothing, neither the other topics nor what is stored.
pub handle_unsubscribe_rejected :
    {O : Type 0} (h : Host O) (c : ℕ) (id : Option ℕ) (before after : List Text) (topic : Text)
    (e : Error) (w : World O)
    → validate_topic (some topic) unsubscribe_verb w.broker.max_topic_levels ≡ some e
    → (e' : Error) × (handle_unsubscribe h c id (before ++ (topic ∷ after)) w ≡ (fail e', w))
unfolding handle_unsubscribe
handle_unsubscribe_rejected h c id before after topic e w wrong =
    let (e', found) = first_error-some w.broker.max_topic_levels before after topic e wrong in
    (e', rw (found, handle_unsubscribe) refl)
