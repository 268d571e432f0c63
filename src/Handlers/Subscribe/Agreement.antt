-- ===== src/Handlers/Subscribe/Agreement.antt =====
-- The actions of a topic of a SUBSCRIBE, the agreement of the client's subscriptions with the message
-- queue, and the levels of the topic that they pass on (lib/handlers/subscribe.js).
use aedes.Common.{ℕ, ◌≤◌, ◌≡◌, sym, ap, ◌∙◌, List, Option, none, some, Text, if_both}
use aedes.Errors.{Error, subscribe_verb}
use aedes.Run.{Outcome, done, fail, silent, pure, continue_with}
use aedes.Topic.{topic_level_count, validate_topic}
use aedes.Packet.{Sub}
use aedes.World.{World, Host, Func, asks_authorize_subscribe, asks_add_subscriptions}
use aedes.World.Steps.{request}
use aedes.Handlers.Subscribe.{
  Item, authorize_valid, authorize, store_subscriptions, authorize_given,
}
use aedes.Handlers.Subscribe.Routing.{Routes, Agree, request-Agree}

module _ {O : Type 0} (h : Host O) (c m : ℕ) (table : O → Text → List Func)
    (routes : Routes h c m table) where
  abbrev Holds : World O → Type 0
  Holds w = Agree h c m table routes w

  -- The topic of the subscription, if any, has no more levels than the limit.
  abbrev pub IsLow : Option Sub → Type 0
  IsLow o = (sub : Sub) → o ≡ some sub → topic_level_count (some sub.topic) ≤ m

  authorize_valid-Holds :
      (sub : Sub) (e : Option Error) (w : World O) → Holds w → Holds (authorize_valid h c sub e w).1
  unfolding authorize_valid
  authorize_valid-Holds sub (some e) w a = a
  authorize_valid-Holds sub none w a =
      request-Agree h c m table routes (asks_authorize_subscribe sub) (h.authorize_subscribe c sub)
        w (routes.keep_authorize sub w.outside) a

  authorize_valid-IsLow :
      (sub : Sub) (e : Option Error) (w : World O) (o : Option Sub)
      → (authorize_valid h c sub e w).0 ≡ done o
      → IsLow o
  unfolding authorize_valid
  authorize_valid-IsLow sub (some e) w o p sub' q = cc
  authorize_valid-IsLow sub none w o p sub' q = routes.shallow sub sub' w.outside (p ∙ ap done q)

  pub authorize_given-Holds :
      (o : Option Sub) (s : Item O) → Holds s.world → Holds (authorize_given h c o s).1.world
  unfolding authorize_given authorize
  authorize_given-Holds none s a = a
  authorize_given-Holds (some sub) s a =
      authorize_valid-Holds sub
        (validate_topic (some sub.topic) subscribe_verb s.world.broker.max_topic_levels) s.world a

  pub authorize_given-IsLow :
      (o o' : Option Sub) (s s' : Item O) → authorize_given h c o s ≡ (done o', s') → IsLow o'
  unfolding authorize_given authorize
  authorize_given-IsLow none o' s s' p sub q = cc (ap (λ r. r.0) p)
  authorize_given-IsLow (some sub) o' s s' p sub' q =
      authorize_valid-IsLow sub
        (validate_topic (some sub.topic) subscribe_verb s.world.broker.max_topic_levels) s.world o'
        (ap (λ r. r.0) p) sub' q

  pub store_subscriptions-Holds :
      (subs : List Sub) (o : Option Sub) (s : Item O)
      → Holds s.world
      → Holds (store_subscriptions h c subs o s).1.world
  unfolding store_subscriptions
  store_subscriptions-Holds subs none s a = a
  store_subscriptions-Holds subs (some sub) s a =
      if_both {A = Outcome (Option Sub) × Item O} (λ r. Holds r.1.world) (s.world.clients c).clean a
        (passed
          (request h (some c) (asks_add_subscriptions subs)
            (h.add_subscriptions (s.world.clients c).id subs) s.world)
          (request-Agree h c m table routes (asks_add_subscriptions subs)
            (h.add_subscriptions (s.world.clients c).id subs) s.world
            (routes.keep_add (s.world.clients c).id subs s.world.outside) a))
    where
      passed :
          (r : Outcome (Unit {0}) × World O)
          → Holds r.1
          → Holds (continue_with {B = Option Sub} (λ _. pure (some sub)) r).1
      passed (done x, w) q = q
      passed (fail e, w) q = q
      passed (silent, w) q = q

  stored :
      (x : Sub) (o' : Option Sub) (r : Outcome (Unit {0}) × World O)
      → (continue_with {B = Option Sub} (λ _. pure (some x)) r).0 ≡ done o'
      → o' ≡ some x
  stored x o' (done y, w) e = cc
  stored x o' (fail y, w) e = cc
  stored x o' (silent, w) e = cc

  -- It passes on what it is given.
  pub store_subscriptions-passes :
      (subs : List Sub) (o o' : Option Sub) (s s' : Item O)
      → store_subscriptions h c subs o s ≡ (done o', s')
      → IsLow o
      → IsLow o'
  unfolding store_subscriptions
  store_subscriptions-passes subs none o' s s' p low sub q = cc (ap (λ r. r.0) p)
  store_subscriptions-passes subs (some x) o' s s' p low sub q =
      let same : o' ≡ some x =
        if_both {A = Outcome (Option Sub) × Item O} (λ r. r.0 ≡ done o' → o' ≡ some x)
          (s.world.clients c).clean (λ e. cc)
          (stored x o' (
            request h (some c) (asks_add_subscriptions subs)
              (h.add_subscriptions (s.world.clients c).id subs) s.world))
          (ap (λ r. r.0) p) in
      low sub (sym same ∙ q)
