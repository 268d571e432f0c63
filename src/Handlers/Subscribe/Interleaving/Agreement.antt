-- ===== src/Handlers/Subscribe/Interleaving/Agreement.antt =====
-- The agreement of the client's subscriptions with the message queue, whatever the order in which
-- the topics of a SUBSCRIBE run their actions (lib/handlers/subscribe.js).
use mathlib.Core.Path.{subst}
use aedes.Common.{
  ℕ, zero, suc, ◌≡◌, refl, ap, Bool, true, false, List, [], ◌∷◌, Option, Text, All, map, length,
}
use aedes.Run.{Outcome, done, fail, silent}
use aedes.Packet.{Sub}
use aedes.World.{World, Host, Func}
use aedes.Handlers.Subscribe.{
  Item, in_world, store_subscriptions, add_subs, authorize_given, topic_actions, subscribe_all,
}
use aedes.Handlers.Subscribe.Routing.{Routes, Agree, add_subs-Agree}
use aedes.Handlers.Subscribe.Agreement.{
  IsLow, authorize_given-Holds, authorize_given-IsLow, store_subscriptions-Holds,
  store_subscriptions-passes,
}
use aedes.Handlers.Subscribe.Interleaving.{
  Action, Topic, Topics, next_action, advance_at, advance, advance_all, begin_topic,
  begin_subscribe,
}
use aedes.Handlers.Subscribe.Interleaving.Sequential.{steps, in_turn, advance_all-in_turn}

-- Actions that are given `o` keep `P`, each of them and those that it passes on to, whatever else
-- happens in between that keeps `P`.
module _ {O : Type 0} (P : World O → Type 0) where
  abbrev Keep : List (Action O) → Option Sub → Type 0
  Keep [] o = Unit
  Keep (f ∷ fs) o =
      (s : Item O)
      → P s.world
      → P (f o s).1.world × ((o' : Option Sub) → (f o s).0 ≡ done o' → Keep fs o')

  abbrev Keeps : Topic O → Type 0
  Keeps t = (o : Option Sub) → t.passed ≡ done o → Keep t.actions o

  next_action-Keeps :
      (g : ℕ) (r : Outcome (Option Sub)) (fs : List (Action O)) (w : World O)
      → Keeps (record { granted = g; passed = r; actions = fs })
      → P w
      → Keeps (next_action g r fs w).0 × P (next_action g r fs w).2
  unfolding next_action
  next_action-Keeps g (done sub) (f ∷ fs) w k p =
      let (here, later) = k sub refl (record { world = w; granted = g }) p in (later, here)
  next_action-Keeps g (done sub) [] w k p = (k, p)
  next_action-Keeps g (fail e) fs w k p = (k, p)
  next_action-Keeps g silent fs w k p = (k, p)

  advance_at-Keeps :
      (i : ℕ) (ts : List (Topic O)) (w : World O)
      → All Keeps ts
      → P w
      → All Keeps (advance_at i ts w).0 × P (advance_at i ts w).2
  unfolding advance_at
  advance_at-Keeps i [] w k p = (k, p)
  advance_at-Keeps zero (t ∷ ts) w (k, ks) p =
      let (k', p') = next_action-Keeps t.granted t.passed t.actions w k p in ((k', ks), p')
  advance_at-Keeps (suc i) (t ∷ ts) w (k, ks) p =
      let (ks', p') = advance_at-Keeps i ts w ks p in ((k, ks'), p')

  advance_all-Keeps :
      (is : List ℕ) (s : Topics O) → All Keeps s.topics → P s.world → P (advance_all is s).world
  unfolding advance_all advance
  advance_all-Keeps [] s k p = p
  advance_all-Keeps (i ∷ is) s k p =
      let (k', p') = advance_at-Keeps i s.topics s.world k p in
      advance_all-Keeps is (advance i s) k' p'

module _ {O : Type 0} (h : Host O) (c m : ℕ) (table : O → Text → List Func)
    (routes : Routes h c m table) where
  abbrev Agrees : World O → Type 0
  Agrees w = Agree h c m table routes w

  last_action-Keep :
      (original : Sub) (o : Option Sub)
      → IsLow h c m table routes o
      → Keep Agrees ((λ x. in_world (add_subs h c original x)) ∷ []) o
  last_action-Keep original o low s a =
      (add_subs-Agree h c m table routes original o s.world low a, λ o' e. tt)

  topic_actions-Keep :
      (restore : Bool) (subs : List Sub) (original : Sub) (o : Option Sub)
      → Keep Agrees (topic_actions h c restore subs original) o
  unfolding topic_actions
  topic_actions-Keep true subs original o = λ s a. (
    authorize_given-Holds h c m table routes o s a,
    λ o' e. last_action-Keep original o' (
        authorize_given-IsLow h c m table routes o o' s (authorize_given h c o s).1
          (ap (λ r. (r, (authorize_given h c o s).1)) e)),
  )
  topic_actions-Keep false subs original o = λ s a. (
    authorize_given-Holds h c m table routes o s a,
    λ o' e s' a'. (
      store_subscriptions-Holds h c m table routes subs o' s' a',
      λ o'' e'. last_action-Keep original o'' (
          store_subscriptions-passes h c m table routes subs o' o'' s'
            (store_subscriptions h c subs o' s').1
            (ap (λ r. (r, (store_subscriptions h c subs o' s').1)) e')
            (authorize_given-IsLow h c m table routes o o' s (authorize_given h c o s).1
              (ap (λ r. (r, (authorize_given h c o s).1)) e))),
    ),
  )

  begin-Keeps :
      (restore : Bool) (all subs : List Sub)
      → All (Keeps Agrees) (map (begin_topic h c restore all) subs)
  unfolding begin_topic
  begin-Keeps restore all [] = tt
  begin-Keeps restore all (sub ∷ subs) =
      (λ o e. topic_actions-Keep restore all sub o, begin-Keeps restore all subs)

  -- If the message queue does what it says, the hook passes on no topic with more levels than the
  -- limit, and the rest leaves the client and its listeners alone (Routes), then the topics of a
  -- SUBSCRIBE, or of a session that is restored, keep the agreement in whatever order their actions
  -- run, after every step: the message queue listens to exactly the topics of the client's
  -- subscriptions, each with the function of the subscription. They do so whether the topics are
  -- refused, fail, are new, change or stay.
  pub advance_all-Agree :
      (restore : Bool) (subs all : List Sub) (is : List ℕ) (w : World O)
      → Agree h c m table routes w
      → Agree h c m table routes (advance_all is (begin_subscribe h c restore all subs w)).world
  unfolding begin_subscribe
  advance_all-Agree restore subs all is w a =
      advance_all-Keeps Agrees is (begin_subscribe h c restore all subs w)
        (begin-Keeps restore all subs) a

  -- So it is when each topic runs all its actions before the next one begins.
  pub subscribe_all-Agree :
      (restore : Bool) (subs all : List Sub) (w : World O)
      → Agree h c m table routes w
      → Agree h c m table routes (subscribe_all h c restore all subs w).2
  subscribe_all-Agree restore subs all w a =
      subst (Agree h c m table routes) (advance_all-in_turn h c restore all subs w).0
        (advance_all-Agree restore subs all (in_turn (steps restore) (length subs)) w a)
