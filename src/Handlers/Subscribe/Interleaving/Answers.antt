-- ===== src/Handlers/Subscribe/Interleaving/Answers.antt =====
-- The callback of `runParallel` for the topics of a SUBSCRIBE, where the code outside answers
-- (lib/handlers/subscribe.js, lib/utils.js).
use aedes.Common.{
  ℕ, zero, suc, ◌<◌, ◌≤◌, ◌≡◌, ◌≢◌, Bool, true, false, List, [], ◌∷◌, Option, some, map, length,
  All,
}
use aedes.Run.{Outcome, done, fail, silent}
use aedes.Packet.{Sub}
use aedes.World.{World, Host}
use aedes.World.Closed.{AreBoth-Stable}
use aedes.World.Ends.{Speaks, Stable, Ends}
use aedes.Handlers.Subscribe.{Item, in_world, authorize_given, add_subs, topic_actions}
use aedes.Handlers.Subscribe.Ending.{IsOpen, add_subs-Ends, authorize-Ends, store-Ends}
use aedes.Handlers.Subscribe.Interleaving.{
  Action, Topic, Topics, next_action, advance_at, advance, advance_all, begin_topic,
  begin_subscribe,
}
use aedes.Handlers.Subscribe.Interleaving.Fair.{turns, ArePresent, present-calls}
use aedes.Handlers.Subscribe.Interleaving.Sequential.{steps}

module _ {O : Type 0} (P : World O → Type 0) where
  -- Each of the actions calls back while `P` holds, and keeps it.
  abbrev AllAnswer : List (Action O) → Type 0
  AllAnswer [] = Unit
  AllAnswer (f ∷ fs) =
      ((o : Option Sub) (s : Item O) → P s.world → Ends ⊥ (λ (x : Item O). P x.world) (f o s))
      × AllAnswer fs

  abbrev Answers : Topic O → Type 0
  Answers t = t.passed ≢ silent × AllAnswer t.actions

  next_action-Answers :
      (g : ℕ) (r : Outcome (Option Sub)) (fs : List (Action O)) (w : World O)
      → r ≢ silent
      → AllAnswer fs
      → P w
      → Answers (next_action g r fs w).0 × P (next_action g r fs w).2
  unfolding next_action
  next_action-Answers g (done o) (f ∷ fs) w ne (a, as') p =
      let (kept, ends) = a o (record { world = w; granted = g }) p in ((ends, as'), kept)
  next_action-Answers g (done o) [] w ne a p = ((ne, a), p)
  next_action-Answers g (fail e) fs w ne a p = ((ne, a), p)
  next_action-Answers g silent fs w ne a p = ((ne, a), p)

  advance_at-Answers :
      (i : ℕ) (ts : List (Topic O)) (w : World O)
      → All Answers ts
      → P w
      → All Answers (advance_at i ts w).0 × P (advance_at i ts w).2
  unfolding advance_at
  advance_at-Answers i [] w a p = (a, p)
  advance_at-Answers zero (t ∷ ts) w ((ne, a), as') p =
      let (a', p') = next_action-Answers t.granted t.passed t.actions w ne a p in ((a', as'), p')
  advance_at-Answers (suc i) (t ∷ ts) w (a, as') p =
      let (as'', p') = advance_at-Answers i ts w as' p in ((a, as''), p')

  advance_all-ArePresent :
      (is : List ℕ) (s : Topics O)
      → All Answers s.topics
      → P s.world
      → ArePresent (advance_all is s).topics
  unfolding advance_all advance
  advance_all-ArePresent [] s a p = present s.topics a
    where
      present : (ts : List (Topic O)) → All Answers ts → ArePresent ts
      present [] a = tt
      present (t ∷ ts) ((ne, _), as') = (ne, present ts as')
  advance_all-ArePresent (i ∷ is) s a p =
      let (a', p') = advance_at-Answers i s.topics s.world a p in
      advance_all-ArePresent is (advance i s) a' p'

done_silent : {A : Type 0} (a : A) → ◌≢◌ {A = Outcome A} (done a) silent
done_silent a e = cc

module _ {O : Type 0} (h : Host O) (c : ℕ) (speaks : Speaks h ⊥)
    (kept : (w : World O) → IsOpen c w → IsOpen c (h.meanwhile w)) where
  stable : Stable h (IsOpen c)
  stable = AreBoth-Stable false false c h kept

  authorized-Answers :
      (o : Option Sub) (s : Item O)
      → IsOpen c s.world
      → Ends ⊥ (λ (x : Item O). IsOpen c x.world) (authorize_given h c o s)
  authorized-Answers o s q = authorize-Ends h ⊥ (IsOpen c) stable speaks c (λ w q'. q') o s q

  added-Answers :
      (original : Sub) (o : Option Sub) (s : Item O)
      → IsOpen c s.world
      → Ends ⊥ (λ (x : Item O). IsOpen c x.world) (in_world (add_subs h c original o) s)
  added-Answers original o s q =
      add_subs-Ends h ⊥ (IsOpen c) stable speaks c (λ w q'. q') original o s.world q

  topic_actions-AllAnswer :
      (restore : Bool) (all : List Sub) (sub : Sub)
      → AllAnswer (IsOpen c) (topic_actions h c restore all sub)
  unfolding topic_actions
  topic_actions-AllAnswer true all sub = (authorized-Answers, (added-Answers sub, tt))
  topic_actions-AllAnswer false all sub = (
    authorized-Answers,
    (store-Ends h ⊥ (IsOpen c) stable speaks c (λ w q'. q') all, (added-Answers sub, tt)),
  )

  begin-Answers :
      (restore : Bool) (all subs : List Sub)
      → All (Answers (IsOpen c)) (map (begin_topic h c restore all) subs)
  unfolding begin_topic
  begin-Answers restore all [] = tt
  begin-Answers restore all (sub ∷ subs) = (
    (done_silent (some sub), topic_actions-AllAnswer restore all sub),
    begin-Answers restore all subs,
  )

  -- If every call of the code outside ends (Speaks) and other tasks do not close the client or the
  -- broker, which are open, then in whatever order the topics of a SUBSCRIBE, or of a session that is
  -- restored, run their actions, once every topic has had three turns (two when a session is
  -- restored) runParallel has called its `done`, once.
  pub advance_all-calls :
      (restore : Bool) (all subs : List Sub) (is : List ℕ) (w : World O)
      → IsOpen c w
      → ((j : ℕ) → j < length subs → steps restore ≤ turns j is)
      → length (advance_all is (begin_subscribe h c restore all subs w)).parallel.calls ≡ 1
  unfolding begin_subscribe
  advance_all-calls restore all subs is w open' fair =
      present-calls h c restore all subs is w fair (
        advance_all-ArePresent (IsOpen c) is (begin_subscribe h c restore all subs w)
          (begin-Answers restore all subs) open')
