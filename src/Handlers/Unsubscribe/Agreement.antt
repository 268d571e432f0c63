-- ===== src/Handlers/Unsubscribe/Agreement.antt =====
-- UNSUBSCRIBE, and the agreement of the client's subscriptions with the message queue
-- (lib/handlers/unsubscribe.js).
use aedes.Common.{
  ℕ, ◌≡◌, refl, ap, ◌∙◌, List, [], ◌∷◌, none, some, Text, text_eq, ltb, if◌then◌else◌, if_both,
  text_eq_iff, arith,
}
use aedes.Run.{Outcome, done, fail, silent, pure, continue_with}
use aedes.Dict.{Dict, Slot, absent, builtin, own, slot, get, remove}
use aedes.Dict.Laws.{get-remove, get-slot_own, get-slot_builtin}
use aedes.Topic.{topic_level_count}
use aedes.World.{World, Host, Func, Subscription, asks_mq_remove}
use aedes.World.Steps.{request}
use aedes.World.Heap.{update_self}
use aedes.Handlers.Subscribe.{mq_unsubscribe}
use aedes.Handlers.Subscribe.Routing.{
  Routes, funcs_of, Sets, Agree, Sets-Agree, Agree-Sets, request-Sets,
}
use aedes.Handlers.Unsubscribe.{
  delete_subscription, unsubscribe_slot, do_unsubscribe, unsubscribe_all,
}

module _ {O : Type 0} (h : Host O) (c m : ℕ) (table : O → Text → List Func)
    (routes : Routes h c m table) where
  abbrev pub Holds : World O → Type 0
  Holds w = Agree h c m table routes w

  deleted-Holds :
      (T : Text → List Func) (d : Dict Subscription) (t : Text) (r : Outcome (Unit {0}) × World O)
      → r.0 ≡ done tt
      → Sets h c m table routes T d r.1
      → ((t' : Text) → T t' ≡ (if text_eq t t' then [] else funcs_of (get t' d)))
      → Holds (continue_with (λ _ v. pure tt (delete_subscription h c t v)) r).1
  unfolding delete_subscription
  deleted-Holds T d t (done x, w) ok s e =
      Sets-Agree h c m table routes T (remove t d) _
        (record {
          limit = s.limit;
          listeners = s.listeners;
          subscriptions =
              ap (λ v. v.subscriptions) (update_self w.clients c _) ∙ ap (remove t) s.subscriptions;
        })
        (λ t'. e t' ∙ rw get-remove (ground arith))
  deleted-Holds T d t (fail x, w) ok s e = absurd (cc ok)
  deleted-Holds T d t (silent, w) ok s e = absurd (cc ok)

  removed-Holds :
      (t : Text) (f : Func) (w : World O)
      → Holds w
      → table w.outside t ≡ f ∷ []
      → Holds
          (continue_with
            (λ _ v. pure tt (delete_subscription h c t v))
            (mq_unsubscribe h c t (some f) w)).1
  unfolding mq_unsubscribe
  removed-Holds t f w a only =
      let d = (w.clients c).subscriptions in
      let T : Text → List Func = λ t'. if text_eq t t' then [] else funcs_of (get t' d) in
      if_both {A = Outcome (Unit {0}) × World O}
        (λ r. Holds (continue_with (λ _ v. pure tt (delete_subscription h c t v)) r).1)
        (ltb w.broker.max_topic_levels (topic_level_count (some t))) a
        (deleted-Holds T d t
          (request h (some c) (asks_mq_remove t (some f)) (h.mq_remove c t (some f)) w)
          (routes.remove_ends t f w.outside only)
          (request-Sets h c m table routes (λ t'. funcs_of (get t' d)) T d
            (asks_mq_remove t (some f)) (h.mq_remove c t (some f)) w
            (λ t'.
              routes.remove_stops t f w.outside only t'
              ∙ ap (λ y. if text_eq t t' then [] else y) (a.routed t'))
            (Agree-Sets h c m table routes w a))
          (λ t'. refl))

  -- A removal where there is nothing, whatever comes of it.
  nothing-Holds :
      (d : Dict Subscription) (t : Text) (r : Outcome (Unit {0}) × World O)
      → get t d ≡ none
      → Sets h c m table routes (λ t'. funcs_of (get t' d)) d r.1
      → Holds (continue_with (λ _ v. pure tt (delete_subscription h c t v)) r).1
  nothing-Holds d t (done x, w) gone s =
      deleted-Holds (λ t'. funcs_of (get t' d)) d t (done x, w) refl s
        (λ t'. ground (arith, text_eq_iff t t', gone))
  nothing-Holds d t (fail e, w) gone s =
      Sets-Agree h c m table routes (λ t'. funcs_of (get t' d)) d w s (λ t'. refl)
  nothing-Holds d t (silent, w) gone s =
      Sets-Agree h c m table routes (λ t'. funcs_of (get t' d)) d w s (λ t'. refl)

  inherited-Holds :
      (t : Text) (w : World O)
      → Holds w
      → get t (w.clients c).subscriptions ≡ none
      → Holds
          (continue_with
            (λ _ v. pure tt (delete_subscription h c t v))
            (mq_unsubscribe h c t none w)).1
  unfolding mq_unsubscribe
  inherited-Holds t w a gone =
      let d = (w.clients c).subscriptions in
      let T : Text → List Func = λ t'. funcs_of (get t' d) in
      if_both {A = Outcome (Unit {0}) × World O}
        (λ r. Holds (continue_with (λ _ v. pure tt (delete_subscription h c t v)) r).1)
        (ltb w.broker.max_topic_levels (topic_level_count (some t))) a
        (nothing-Holds d t (request h (some c) (asks_mq_remove t none) (h.mq_remove c t none) w)
          gone
          (request-Sets h c m table routes T T d (asks_mq_remove t none) (h.mq_remove c t none) w
            (λ t'.
              routes.remove_none t none w.outside (a.routed t ∙ ap funcs_of gone) t' ∙ a.routed t')
            (Agree-Sets h c m table routes w a)))

  pub unsubscribe_slot-Holds :
      (t : Text) (s : Slot Subscription) (w : World O)
      → slot t (w.clients c).subscriptions ≡ s
      → Holds w
      → Holds (unsubscribe_slot h c t s w).1
  unfolding unsubscribe_slot
  unsubscribe_slot-Holds t absent w at a = a
  unsubscribe_slot-Holds t builtin w at a =
      inherited-Holds t w a (get-slot_builtin t (w.clients c).subscriptions at)
  unsubscribe_slot-Holds t (own s) w at a =
      removed-Holds t s.func w a
        (a.routed t ∙ ap funcs_of (get-slot_own t s (w.clients c).subscriptions at))

  -- If the message queue does what it says and the rest leaves the client and its listeners alone
  -- (Routes), then unsubscribing from any topics, also from topics that the client has no
  -- subscription to or that have too many levels, keeps the agreement: the message queue listens to
  -- exactly the topics of the client's subscriptions, each with the function of the subscription.
  pub unsubscribe_all-Agree :
      (topics : List Text) (w : World O)
      → Agree h c m table routes w
      → Agree h c m table routes (unsubscribe_all h c topics w).1
  unfolding unsubscribe_all do_unsubscribe
  unsubscribe_all-Agree [] w a = a
  unsubscribe_all-Agree (t ∷ topics) w a =
      unsubscribe_all-Agree topics (do_unsubscribe h c t w).1
        (unsubscribe_slot-Holds t (slot t (w.clients c).subscriptions) w refl a)
