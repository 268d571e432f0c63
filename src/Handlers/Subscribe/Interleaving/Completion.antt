-- ===== src/Handlers/Subscribe/Interleaving/Completion.antt =====
-- When `runParallel` calls back for the topics of a SUBSCRIBE (lib/handlers/subscribe.js,
-- lib/utils.js), in whatever order they run their actions.
use mathlib.Core.Path.{subst}
use aedes.Common.{
  ℕ, zero, suc, ◌+◌, ◌≤◌, ◌≡◌, ◌↔◌, refl, sym, Bool, true, false, List, [], ◌∷◌, Option, none, some,
  map, length, All, arith,
}
use aedes.Run.{Outcome, done, fail, silent}
use aedes.Flow.{launch}
use aedes.Flow.Counting.{
  Step, quiet, ends, breaks, add-Step, on-Step, Counts, Step-Counts, Counts-calls, launch-Counts,
}
use aedes.Packet.{Sub}
use aedes.World.{World, Host}
use aedes.Handlers.Subscribe.{topic_actions}
use aedes.Handlers.Subscribe.Interleaving.{
  Action, Topic, Topics, callbacks, next_action, advance_at, advance, advance_all, begin_topic,
  begin_subscribe,
}

abbrev pub fails : Outcome (Option Sub) → ℕ
fails (done sub) = 0
fails (fail e) = 1
fails silent = 0

module _ {O : Type 0} where
  -- A topic that has called back without an error: its last action has.
  abbrev pub is_completed : Outcome (Option Sub) → List (Action O) → Bool
  is_completed (done sub) [] = true
  is_completed (done sub) (f ∷ fs) = false
  is_completed (fail e) fs = false
  is_completed silent fs = false

  abbrev pub AreCompleted : List (Topic O) → Type 0
  AreCompleted = All (λ t. is_completed t.passed t.actions ≡ true)

  -- How many topics have not called back without an error, and how many with one.
  abbrev pub waits : Outcome (Option Sub) → List (Action O) → ℕ
  waits (done sub) [] = 0
  waits (done sub) (f ∷ fs) = 1
  waits (fail e) fs = 1
  waits silent fs = 1

  abbrev pub all_waits : List (Topic O) → ℕ
  all_waits [] = 0
  all_waits (t ∷ ts) = waits t.passed t.actions + all_waits ts

  abbrev pub all_fails : List (Topic O) → ℕ
  all_fails [] = 0
  all_fails (t ∷ ts) = fails t.passed + all_fails ts

  callbacks-Step :
      (r : Outcome (Option Sub)) (fs : List (Action O))
      → Step 1 0 (waits r fs) (fails r) (callbacks r fs)
  unfolding callbacks
  callbacks-Step (done sub) [] = ends refl refl
  callbacks-Step (done sub) (f ∷ fs) = quiet refl refl
  callbacks-Step (fail e) fs = breaks e refl refl
  callbacks-Step silent fs = quiet refl refl

  next_action-Step :
      (g : ℕ) (r : Outcome (Option Sub)) (fs : List (Action O)) (w : World O)
      → let (t', calls, w') = next_action g r fs w in
        Step (waits r fs) (fails r) (waits t'.passed t'.actions) (fails t'.passed) calls
  unfolding next_action
  next_action-Step g (done sub) (f ∷ fs) w =
      callbacks-Step (f sub (record { world = w; granted = g })).0 fs
  next_action-Step g (done sub) [] w = quiet refl refl
  next_action-Step g (fail e) fs w = quiet refl refl
  next_action-Step g silent fs w = quiet refl refl

  advance_at-Step :
      (i : ℕ) (ts : List (Topic O)) (w : World O)
      → let (ts', calls, w') = advance_at i ts w in
        Step (all_waits ts) (all_fails ts) (all_waits ts') (all_fails ts') calls
  unfolding advance_at
  advance_at-Step i [] w = quiet refl refl
  advance_at-Step zero (t ∷ ts) w =
      add-Step _ _ _ _ (all_waits ts) (all_fails ts) _
        (next_action-Step t.granted t.passed t.actions w)
  advance_at-Step (suc i) (t ∷ ts) w =
      on-Step _ _ _ _ (waits t.passed t.actions) (fails t.passed) _ (advance_at-Step i ts w)

  fails-waits : (r : Outcome (Option Sub)) (fs : List (Action O)) → fails r ≤ waits r fs
  fails-waits (done sub) [] = omega arith
  fails-waits (done sub) (f ∷ fs) = omega arith
  fails-waits (fail e) fs = omega arith
  fails-waits silent fs = omega arith

  all_fails-all_waits : (ts : List (Topic O)) → all_fails ts ≤ all_waits ts
  all_fails-all_waits [] = omega arith
  all_fails-all_waits (t ∷ ts) =
      omega (arith, fails-waits t.passed t.actions, all_fails-all_waits ts)

  abbrev pub IsCounted : Topics O → Type 0
  IsCounted s = Counts (all_waits s.topics) (all_fails s.topics) s.parallel

  pub advance_all-IsCounted :
      (is : List ℕ) (s : Topics O) → IsCounted s → IsCounted (advance_all is s)
  unfolding advance_all advance
  advance_all-IsCounted [] s k = k
  advance_all-IsCounted (i ∷ is) s k = advance_all-IsCounted is (advance i s) (
      Step-Counts _ _ _ _ _ s.parallel (advance_at-Step i s.topics s.world) k
        (all_fails-all_waits (advance_at i s.topics s.world).0))

  completed-waits :
      (r : Outcome (Option Sub)) (fs : List (Action O)) → waits r fs ≡ 0 → is_completed r fs ≡ true
  completed-waits (done sub) [] e = refl
  completed-waits (done sub) (f ∷ fs) e = absurd (omega arith)
  completed-waits (fail x) fs e = absurd (omega arith)
  completed-waits silent fs e = absurd (omega arith)

  waits-completed :
      (r : Outcome (Option Sub)) (fs : List (Action O)) → is_completed r fs ≡ true → waits r fs ≡ 0
  waits-completed (done sub) [] e = refl
  waits-completed (done sub) (f ∷ fs) e = cc
  waits-completed (fail x) fs e = cc
  waits-completed silent fs e = cc

  all_waits_iff : (ts : List (Topic O)) → all_waits ts ≡ 0 ↔ AreCompleted ts
  all_waits_iff [] = ((λ _. tt), λ _. refl)
  all_waits_iff (t ∷ ts) =
      let (to, from) = all_waits_iff ts in
      (
        (λ e. (completed-waits t.passed t.actions (omega arith), to (omega arith))),
        λ (e, es). omega (arith, waits-completed t.passed t.actions e, from es),
      )

topic_actions-waits :
    {O : Type 0} (h : Host O) (c : ℕ) (restore : Bool) (all : List Sub) (sub : Sub)
    → waits (done (some sub)) (topic_actions h c restore all sub) ≡ 1
unfolding topic_actions
topic_actions-waits h c true all sub = refl
topic_actions-waits h c false all sub = refl

module _ {O : Type 0} (h : Host O) (c : ℕ) (restore : Bool) (all : List Sub) where
  begin-all_waits :
      (subs : List Sub)
      → all_waits (map (begin_topic h c restore all) subs) ≡ length subs
        × all_fails (map (begin_topic h c restore all) subs) ≡ 0
  unfolding begin_topic
  begin-all_waits [] = (refl, refl)
  begin-all_waits (sub ∷ subs) =
      let (p, q) = begin-all_waits subs in
      (omega (arith, topic_actions-waits h c restore all sub, p), omega (arith, q))

  pub begin-IsCounted :
      (subs : List Sub) (w : World O) → IsCounted (begin_subscribe h c restore all subs w)
  unfolding begin_subscribe
  begin-IsCounted subs w =
      let (p, q) = begin-all_waits subs in
      subst
        (λ n. Counts n (all_fails (map (begin_topic h c restore all) subs)) (launch (length subs)))
        (sym p)
        (subst (λ b. Counts (length subs) b (launch (length subs))) (sym q)
          (launch-Counts (length subs)))

  -- In whatever order the topics of a SUBSCRIBE, or of a session that is restored, run their
  -- actions, after every step: runParallel has called its `done` just once, with no error, if and only
  -- if every topic has run all its actions, and none of them has failed or is silent.
  pub advance_all_iff :
      (subs : List Sub) (is : List ℕ) (w : World O)
      → let s = advance_all is (begin_subscribe h c restore all subs w) in
        s.parallel.calls ≡ none ∷ [] ↔ AreCompleted s.topics
  advance_all_iff subs is w =
      let s = advance_all is (begin_subscribe h c restore all subs w) in
      let (to, from) =
        Counts-calls _ _ s.parallel (all_fails-all_waits s.topics)
          (advance_all-IsCounted is _ (begin-IsCounted subs w)) in
      let (there, back) = all_waits_iff s.topics in ((λ e. there (to e)), λ e. from (back e))
