-- ===== src/Handlers/Subscribe/Interleaving.antt =====
-- The topics of a SUBSCRIBE while they are worked on (`doSubscribe` of lib/handlers/subscribe.js, in
-- `runParallel` of lib/utils.js): each has called one of its actions or waits to, and their callbacks
-- may come in any order. Each action calls back at its end, and at most one call of it waits for its
-- answer, so one step runs one action of one topic.
pub mod Agreement
pub mod Completion
pub mod Fair
pub mod Answers
pub mod Granted
pub mod Sequential
pub mod Turns
mod Examples
use aedes.Common.{ℕ, zero, suc, Bool, List, [], ◌∷◌, ◌++◌, Option, none, some, map, length}
use aedes.Errors.{Error}
use aedes.Run.{Outcome, done, fail, silent, M}
use aedes.Flow.{Parallel, launch, complete_all}
use aedes.Packet.{Sub}
use aedes.World.{World, Host}
use aedes.Handlers.Subscribe.{Item, topic_actions}

abbrev pub Action : Type 0 → Type 0
Action O = Option Sub → M (Item O) (Option Sub)

-- A topic: the `granted` of its `SubState`, what its last action called back with, and the actions
-- that `runFall` has left.
pub record Topic (O : Type 0) : Type 0 where
  pub granted : ℕ
  pub passed : Outcome (Option Sub)
  pub actions : List (Action O)

-- All topics of a packet, and the variables of `runParallel`.
pub record Topics (O : Type 0) : Type 0 where
  pub world : World O
  pub topics : List (Topic O)
  pub parallel : Parallel

module _ {O : Type 0} where
  -- The callback of a topic, at its last action or at an error.
  pub callbacks : Outcome (Option Sub) → List (Action O) → List (Option Error)
  callbacks (done sub) [] = none ∷ []
  callbacks (done sub) (f ∷ fs) = []
  callbacks (fail e) fs = some e ∷ []
  callbacks silent fs = []

  -- A topic's next action, if it has one to run; with the callback of the topic, if that comes.
  pub next_action :
      ℕ → Outcome (Option Sub) → List (Action O) → World O → Topic O × List (Option Error) × World O
  unfolding callbacks
  next_action g (done sub) (f ∷ fs) w =
      let (r, s) = f sub (record { world = w; granted = g }) in
      (record { granted = s.granted; passed = r; actions = fs }, callbacks r fs, s.world)
  next_action g (done sub) [] w = (record { granted = g; passed = done sub; actions = [] }, [], w)
  next_action g (fail e) fs w = (record { granted = g; passed = fail e; actions = fs }, [], w)
  next_action g silent fs w = (record { granted = g; passed = silent; actions = fs }, [], w)

  pub advance_at : ℕ → List (Topic O) → World O → List (Topic O) × List (Option Error) × World O
  unfolding next_action
  advance_at i [] w = ([], [], w)
  advance_at zero (t ∷ ts) w =
      let (t', calls, w') = next_action t.granted t.passed t.actions w in (t' ∷ ts, calls, w')
  advance_at (suc i) (t ∷ ts) w = let (ts', calls, w') = advance_at i ts w in (t ∷ ts', calls, w')

  pub advance : ℕ → Topics O → Topics O
  unfolding advance_at
  advance i s =
      let (ts, calls, w) = advance_at i s.topics s.world in
      record { world = w; topics = ts; parallel = complete_all s.parallel calls }

  -- The topics that take the steps, in their order.
  pub advance_all : List ℕ → Topics O → Topics O
  unfolding advance
  advance_all [] s = s
  advance_all (i ∷ is) s = advance_all is (advance i s)

-- The call of `runParallel`, before any action.
module _ {O : Type 0} (h : Host O) (c : ℕ) (restore : Bool) (all : List Sub) where
  pub begin_topic : Sub → Topic O
  unfolding topic_actions
  begin_topic sub = record {
    granted = sub.qos;
    passed = done (some sub);
    actions = topic_actions h c restore all sub;
  }

  pub begin_subscribe : List Sub → World O → Topics O
  unfolding begin_topic
  begin_subscribe subs w = record {
    world = w;
    topics = map begin_topic subs;
    parallel = launch (length subs);
  }
