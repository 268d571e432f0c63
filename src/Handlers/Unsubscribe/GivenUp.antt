-- ===== src/Handlers/Unsubscribe/GivenUp.antt =====
-- What `close` of lib/client.js gives up: it unsubscribes from all topics of the client
-- (lib/handlers/unsubscribe.js).
use aedes.Common.{
  ℕ, ◌≤◌, ◌≡◌, refl, ap, ◌∙◌, inl, inr, true, sym, ◌≢◌, false, List, [], ◌∷◌, none, some, Text, All,
  any, text_eq, ltb, if_false, if_true, Bool-cases, arith,
}
use aedes.Run.{Outcome, done, pure}
use aedes.Run.Laws.{after_done, both_done}
use aedes.Dict.{Dict, Slot, absent, builtin, own, slot, get, keys, is_inherited}
use aedes.Dict.Laws.{inherited-slot_builtin, get-slot_own}
use aedes.Topic.{topic_level_count}
use aedes.World.{World, Host, Func, Subscription}
use aedes.Handlers.Subscribe.{mq_unsubscribe}
use aedes.Handlers.Subscribe.Routing.{Routes, funcs_of, Agree}
use aedes.Handlers.Unsubscribe.{
  delete_subscription, unsubscribe_slot, do_unsubscribe, unsubscribe_all,
}
use aedes.Handlers.Unsubscribe.Agreement.{unsubscribe_slot-Holds, unsubscribe_all-Agree}
use aedes.Handlers.Unsubscribe.Removal.{subscribed, unsubscribe_all-subscribed}

-- A property is found only under one of the keys.
get_no_key :
    {V : Type 0} (t : Text) (d : Dict V) → any (λ k. text_eq k t) (keys d) ≡ false → get t d ≡ none
unfolding get
get_no_key t [] e = refl
get_no_key t ((k, v) ∷ d) e = ground (arith, get_no_key t d)

true-false : true ≢ false
true-false e = cc

module _ {O : Type 0} (h : Host O) (c m : ℕ) (table : O → Text → List Func)
    (routes : Routes h c m table) where
  -- A topic within the limit can be unsubscribed from.
  abbrev pub IsShallow : Text → Type 0
  IsShallow t = topic_level_count (some t) ≤ m

  mq_unsubscribe-done :
      (t : Text) (f : Func) (w : World O)
      → IsShallow t
      → w.broker.max_topic_levels ≡ m
      → table w.outside t ≡ f ∷ []
      → (mq_unsubscribe h c t (some f) w).0 ≡ done tt
  unfolding mq_unsubscribe
  mq_unsubscribe-done t f w shallow limit only =
      let within : ltb w.broker.max_topic_levels (topic_level_count (some t)) ≡ false =
        ground arith in
      ap (λ (r : Outcome (Unit {0}) × World O). r.0) (if_false _ _ _ within)
      ∙ routes.remove_ends t f w.outside only

  unsubscribe_slot-done :
      (t : Text) (s : Slot Subscription) (w : World O)
      → slot t (w.clients c).subscriptions ≡ s
      → IsShallow t
      → is_inherited t ≡ false
      → Agree h c m table routes w
      → (unsubscribe_slot h c t s w).0 ≡ done tt
  unfolding unsubscribe_slot
  unsubscribe_slot-done t absent w at shallow plain a = refl
  unsubscribe_slot-done t builtin w at shallow plain a =
      absurd (true-false (sym (inherited-slot_builtin t (w.clients c).subscriptions at) ∙ plain))
  unsubscribe_slot-done t (own s) w at shallow plain a =
      ap (λ r. r.0)
        (after_done (λ _ v. pure tt (delete_subscription h c t v))
          (mq_unsubscribe h c t (some s.func) w) tt
          (mq_unsubscribe-done t s.func w shallow a.limit
            (a.routed t ∙ ap funcs_of (get-slot_own t s (w.clients c).subscriptions at))))

  pub unsubscribe_all-done :
      (ts : List Text) (w : World O)
      → All IsShallow ts
      → All (λ t. is_inherited t ≡ false) ts
      → Agree h c m table routes w
      → (unsubscribe_all h c ts w).0 ≡ done tt
  unfolding unsubscribe_all do_unsubscribe
  unsubscribe_all-done [] w all plain a = refl
  unsubscribe_all-done (t ∷ ts) w (this, all) (here, plain) a =
      let there = slot t (w.clients c).subscriptions in
      let r = do_unsubscribe h c t w in
      both_done r.0 (unsubscribe_all h c ts r.1).0
        (unsubscribe_slot-done t there w refl this here a)
        (unsubscribe_all-done ts r.1 all plain
          (unsubscribe_slot-Holds h c m table routes t there w refl a))

  -- If the message queue does what it says and the rest leaves the client and its listeners alone
  -- (Routes), the client's subscriptions agree with the message queue, and none of their topics has
  -- more levels than the limit or is a name of `Object.prototype`, then unsubscribing from all of
  -- them ends without an error; and after that the client has no subscription, and the message queue
  -- listens to nothing for it.
  pub unsubscribe_all-given_up :
      (w : World O) (t : Text)
      → Agree h c m table routes w
      → All IsShallow (keys (w.clients c).subscriptions)
      → All (λ k. is_inherited k ≡ false) (keys (w.clients c).subscriptions)
      → let r = unsubscribe_all h c (keys (w.clients c).subscriptions) w in
        (r.0 ≡ done tt) × (subscribed c t r.1 ≡ none) × (table r.1.outside t ≡ [])
  unsubscribe_all-given_up w t a all plain =
      let topics = keys (w.clients c).subscriptions in
      let ok = unsubscribe_all-done topics w all plain a in
      let gone : subscribed c t (unsubscribe_all h c topics w).1 ≡ none =
        unsubscribe_all-subscribed h c routes.steady t topics w ok
        ∙ elim (Bool-cases (any (λ topic. text_eq topic t) topics)) [
          | inl named ↦ if_true _ _ _ named
          | inr unnamed ↦ if_false _ _ _ unnamed ∙ get_no_key t (w.clients c).subscriptions unnamed
        ] in
      (ok, gone, (unsubscribe_all-Agree h c m table routes topics w a).routed t ∙ ap funcs_of gone)
