-- ===== src/Handlers/Subscribe/Ending.antt =====
-- How SUBSCRIBE ends (lib/handlers/subscribe.js).
use mathlib.Core.Path.{subst}
use aedes.Common.{
  sym, if_false, ℕ, ◌≡◌, ◌==◌, refl, false, true, Bool, List, [], ◌∷◌, Option, none, some, ◌||◌,
  Text, length, ltb, if_both, arith, if◌then◌else◌,
}
use aedes.Errors.{Error}
use aedes.Run.{Outcome, done, fail, silent, M, pure, run_fall}
use aedes.Dict.{Slot, absent, builtin, own, slot}
use aedes.Topic.{topic_level_count}
use aedes.Packet.{Packet, Sub}
use aedes.World.{
  World, Host, Func, Subscription, asks_mq_on, asks_authorize_subscribe, asks_add_subscriptions,
}
use aedes.World.Ends.{
  Speaks, Stable, Stable-Calm, Ends, pure-Ends, throw-Ends, drop-Ends, bind-Ends, request-Ends,
}
use aedes.Write.{write}
use aedes.Write.Ending.{write-Ends}
use aedes.Handlers.Subscription.{sub_ack, dedupe_subs, same_subscription, subscription_of}
use aedes.Handlers.Subscribe.{
  Item, in_world, mq_subscribe, authorize_valid, authorize, authorize_given, store_subscriptions,
  set_subscription, replace_subscription, add_subscription, add_subs, topic_actions, do_subscribe,
  subscribe_all, acknowledge_subscribe, complete_subscribe, finish_subscribe, handle_subscribe,
}
use aedes.Handlers.Unsubscribe.Ending.{both-ends, mq_unsubscribe-Ends}

-- While `P` holds the client and the broker are open.
abbrev pub IsOpen : {O : Type 0} → ℕ → World O → Type 0
IsOpen c w = ((w.clients c).closed ≡ false) × (w.broker.closed ≡ false)

module _ {O : Type 0} (h : Host O) (S : Type 0) (P : World O → Type 0) (stable : Stable h P)
    (speaks : Speaks h S) (c : ℕ) (open' : (w : World O) → P w → IsOpen c w) where
  -- `P` of the world of a topic's state.
  abbrev pub AtItem : Item O → Type 0
  AtItem s = P s.world

  in_world-Ends :
      {A : Type 0} (m : M (World O) A) (s : Item O)
      → Ends S P (m s.world)
      → Ends S AtItem (in_world m s)
  in_world-Ends m s q = q

  mq_subscribe-Ends : (t : Text) (f : Func) (w : World O) → P w → Ends S P (mq_subscribe h c t f w)
  unfolding mq_subscribe
  mq_subscribe-Ends t f w q =
      if_both {A = Outcome (Unit {0}) × World O} (Ends S P)
        (ltb w.broker.max_topic_levels (topic_level_count (some t))) (throw-Ends S P _ w q)
        (request-Ends h S P (Stable-Calm stable (some c)) (asks_mq_on t f) (h.mq_on c t f) w
          (speaks.mq_on c t f) q)

  set_subscription-kept :
      (t : Text) (s : Subscription) (w : World O) → P w → P (set_subscription h c t s w)
  unfolding set_subscription
  set_subscription-kept t s w q = stable.set c _ w refl q

  replace_subscription-Ends :
      (t : Text) (old : Option Func) (s : Subscription) (w : World O)
      → P w
      → Ends S P (replace_subscription h c t old s w)
  unfolding replace_subscription
  replace_subscription-Ends t old s w q =
      mq_subscribe-Ends t s.func _
        (set_subscription-kept t s _ (mq_unsubscribe-Ends h S P stable speaks c t old w q).0)

  add_subscription-Ends :
      (t : Text) (there : Slot Subscription) (s : Subscription) (w : World O)
      → P w
      → Ends S P (add_subscription h c t there s w)
  unfolding add_subscription
  add_subscription-Ends t absent s w q =
      mq_subscribe-Ends t s.func _ (set_subscription-kept t s w q)
  add_subscription-Ends t builtin s w q = replace_subscription-Ends t none s w q
  add_subscription-Ends t (own old) s w q =
      if_both {A = Outcome (Unit {0}) × World O} (Ends S P) (same_subscription old s)
        (pure-Ends S P tt w q) (replace_subscription-Ends t (some old.func) s w q)

  pub add_subs-Ends :
      (original : Sub) (sub : Option Sub) (w : World O)
      → P w
      → Ends S P (add_subs h c original sub w)
  unfolding add_subs
  add_subs-Ends original none w q = pure-Ends S P none w q
  add_subs-Ends original (some sub) w q =
      let (client_open, broker_open) = open' w q in
      let nothing : Option Sub = none in
      let both_open : ((w.clients c).closed || w.broker.closed) ≡ false = ground arith in
      subst (Ends S P) (sym (if_false ((w.clients c).closed || w.broker.closed) _ _ both_open)) (
        drop-Ends S P nothing _ (
          add_subscription-Ends sub.topic (slot sub.topic (w.clients c).subscriptions)
            (subscription_of original sub) w q))

  authorize_valid-Ends :
      (sub : Sub) (e : Option Error) (w : World O) → P w → Ends S P (authorize_valid h c sub e w)
  unfolding authorize_valid
  authorize_valid-Ends sub (some e) w q = throw-Ends S P e w q
  authorize_valid-Ends sub none w q =
      request-Ends h S P (Stable-Calm stable (some c)) (asks_authorize_subscribe sub)
        (h.authorize_subscribe c sub) w (speaks.authorize_subscribe c sub) q

  pub authorize-Ends :
      (sub : Option Sub) (s : Item O) → AtItem s → Ends S AtItem (authorize_given h c sub s)
  unfolding authorize_given authorize
  authorize-Ends none s q = pure-Ends S AtItem none s q
  authorize-Ends (some sub) s q = authorize_valid-Ends sub _ s.world q

  pub store-Ends :
      (subs : List Sub) (sub : Option Sub) (s : Item O)
      → AtItem s
      → Ends S AtItem (store_subscriptions h c subs sub s)
  unfolding store_subscriptions
  store-Ends subs none s q = (q, λ e. cc)
  store-Ends subs (some sub) s q =
      if_both {A = Outcome (Option Sub) × Item O} (Ends S AtItem) (s.world.clients c).clean
        (pure-Ends S AtItem (some sub) s q)
        (drop-Ends S P (some sub) _ (
          request-Ends h S P (Stable-Calm stable (some c)) (asks_add_subscriptions subs)
            (h.add_subscriptions (s.world.clients c).id subs) s.world
            (speaks.add_subscriptions (s.world.clients c).id subs) q))

  do_subscribe-Ends :
      (restore : Bool) (subs : List Sub) (sub : Sub) (w : World O)
      → P w
      → Ends S AtItem (do_subscribe h c restore subs sub w)
  unfolding do_subscribe topic_actions run_fall
  do_subscribe-Ends true subs sub w q =
      let s : Item O = record { world = w; granted = sub.qos } in
      drop-Ends S AtItem tt _ (
        bind-Ends S AtItem _ (authorize_given h c (some sub) s) (authorize-Ends (some sub) s q)
          (λ given s1 _ q1.
            bind-Ends S AtItem _ (in_world (add_subs h c sub given) s1)
              (add_subs-Ends sub given s1.world q1)
              (λ last s2 _ q2. pure-Ends S AtItem last s2 q2)))
  do_subscribe-Ends false subs sub w q =
      let s : Item O = record { world = w; granted = sub.qos } in
      drop-Ends S AtItem tt _ (
        bind-Ends S AtItem _ (authorize_given h c (some sub) s) (authorize-Ends (some sub) s q)
          (λ given s1 _ q1.
            bind-Ends S AtItem _ (store_subscriptions h c subs given s1)
              (store-Ends subs given s1 q1)
              (λ given' s2 _ q2.
                bind-Ends S AtItem _ (in_world (add_subs h c sub given') s2)
                  (add_subs-Ends sub given' s2.world q2)
                  (λ last s3 _ q3. pure-Ends S AtItem last s3 q3))))

  subscribe_all-Ends :
      (restore : Bool) (subs items : List Sub) (w : World O)
      → P w
      → (P (subscribe_all h c restore subs items w).2)
        × ((subscribe_all h c restore subs items w).0 ≡ silent → S)
  unfolding subscribe_all
  subscribe_all-Ends restore subs [] w q = (q, λ e. cc)
  subscribe_all-Ends restore subs (sub ∷ items) w q =
      let r = do_subscribe h c restore subs sub w in
      let now = do_subscribe-Ends restore subs sub w q in
      let rest = subscribe_all-Ends restore subs items r.1.world now.0 in
      (rest.0, both-ends S r.0 (subscribe_all h c restore subs items r.1.world).0 now.1 rest.1)

  complete-ends :
      (p : Packet) (subs : List Sub) (granted : List ℕ) (w : World O)
      → P w
      → (complete_subscribe h c p subs granted w).0 ≡ silent
      → S
  unfolding complete_subscribe acknowledge_subscribe
  complete-ends p subs granted w q = acknowledged p.message_id
    where
      acknowledged :
          (id : Option ℕ)
          → (elim id as (λ _. Outcome (Unit {0}) × World O) [
            | none ↦ pure tt w
            | some _ ↦ write h c (sub_ack p granted) w
          ]).0
            ≡ silent
          → S
      acknowledged none = λ e. cc
      acknowledged (some _) = (write-Ends h S P stable speaks c (sub_ack p granted) w q).1

  finish-ends :
      (restore : Bool) (p : Packet) (subs : List Sub) (r : Outcome (Unit {0}) × List ℕ × World O)
      → P r.2
      → (r.0 ≡ silent → S)
      → (finish_subscribe h c restore p subs r).0 ≡ silent
      → S
  unfolding finish_subscribe
  finish-ends restore p subs (fail e, granted, w) q ends = λ x. cc
  finish-ends restore p subs (silent, granted, w) q ends = λ x. ends refl
  finish-ends true p subs (done tt, granted, w) q ends = λ x. cc
  finish-ends false p subs (done tt, granted, w) q ends = complete-ends p subs granted w q

  pub handle_subscribe-ends :
      (restore : Bool) (p : Packet) (w : World O)
      → P w
      → (handle_subscribe h c restore p w).0 ≡ silent
      → S
  unfolding handle_subscribe
  handle_subscribe-ends restore p w q =
      let subs =
        if length p.subscriptions == 1 then p.subscriptions else dedupe_subs p.subscriptions in
      let (kept, ends) = subscribe_all-Ends restore subs subs w q in
      finish-ends restore p subs (subscribe_all h c restore subs subs w) kept ends
