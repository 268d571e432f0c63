-- ===== src/Handlers/Subscribe/Interleaving/Fair.antt =====
-- The turns of the topics of a SUBSCRIBE, and the callback of `runParallel`
-- (lib/handlers/subscribe.js, lib/utils.js).
use aedes.Common.{
  ℕ, zero, suc, ◌+◌, ◌-◌, ◌≤◌, ◌<◌, ◌≡◌, ◌≢◌, refl, ap, ◌∙◌, Bool, true, false, List, [], ◌∷◌,
  Option, map, length, length-map, All, arith,
}
use aedes.Run.{Outcome, done, fail, silent}
use aedes.Flow.{Parallel}
use aedes.Flow.Counting.{Counts, waiting, complete, broken}
use aedes.Packet.{Sub}
use aedes.World.{World, Host}
use aedes.Handlers.Subscribe.{topic_actions}
use aedes.Handlers.Subscribe.Interleaving.{
  Action, Topic, Topics, next_action, advance_at, advance, advance_all, begin_topic,
  begin_subscribe,
}
use aedes.Handlers.Subscribe.Interleaving.Completion.{
  waits, fails, all_waits, all_fails, advance_all-IsCounted, begin-IsCounted,
}
use aedes.Handlers.Subscribe.Interleaving.Sequential.{steps}

abbrev is_at : ℕ → ℕ → ℕ
is_at zero zero = 1
is_at zero (suc j) = 0
is_at (suc i) zero = 0
is_at (suc i) (suc j) = is_at i j

-- How many of the steps are those of topic `j`.
abbrev pub turns : ℕ → List ℕ → ℕ
turns j [] = 0
turns j (i ∷ is) = is_at i j + turns j is

module _ {O : Type 0} where
  -- The actions that are left to run; after an error or silence there are none.
  abbrev left : Outcome (Option Sub) → List (Action O) → ℕ
  left (done o) fs = length fs
  left (fail e) fs = 0
  left silent fs = 0

  left-length : (r : Outcome (Option Sub)) (fs : List (Action O)) → left r fs ≤ length fs
  left-length (done o) fs = omega arith
  left-length (fail e) fs = omega arith
  left-length silent fs = omega arith

  next_action-left :
      (g : ℕ) (r : Outcome (Option Sub)) (fs : List (Action O)) (w : World O)
      → let t = (next_action g r fs w).0 in left t.passed t.actions ≤ left r fs - 1
  unfolding next_action
  next_action-left g (done o) (f ∷ fs) w =
      omega (arith, left-length (f o (record { world = w; granted = g })).0 fs)
  next_action-left g (done o) [] w = omega arith
  next_action-left g (fail e) fs w = omega arith
  next_action-left g silent fs w = omega arith

  -- Topic `j` has `b j` actions left at most.
  abbrev Within : (ℕ → ℕ) → List (Topic O) → Type 0
  Within b [] = Unit
  Within b (t ∷ ts) = left t.passed t.actions ≤ b 0 × Within (λ j. b (suc j)) ts

  Within-le :
      (b b' : ℕ → ℕ) (ts : List (Topic O)) → ((j : ℕ) → b j ≤ b' j) → Within b ts → Within b' ts
  Within-le b b' [] le k = tt
  Within-le b b' (t ∷ ts) le (k, ks) = (omega (arith, le 0), Within-le _ _ ts (λ j. le (suc j)) ks)

  advance_at-Within :
      (i : ℕ) (b : ℕ → ℕ) (ts : List (Topic O)) (w : World O)
      → Within b ts
      → Within (λ j. b j - is_at i j) (advance_at i ts w).0
  unfolding advance_at
  advance_at-Within i b [] w k = tt
  advance_at-Within zero b (t ∷ ts) w (k, ks) = (
    omega (arith, next_action-left t.granted t.passed t.actions w),
    Within-le (λ j. b (suc j)) _ ts (λ j. omega arith) ks,
  )
  advance_at-Within (suc i) b (t ∷ ts) w (k, ks) = (
    omega arith,
    Within-le _ _ (advance_at i ts w).0 (λ j. omega arith)
        (advance_at-Within i (λ j. b (suc j)) ts w ks),
  )

  advance_all-Within :
      (is : List ℕ) (b : ℕ → ℕ) (s : Topics O)
      → Within b s.topics
      → Within (λ j. b j - turns j is) (advance_all is s).topics
  unfolding advance_all advance
  advance_all-Within [] b s k = Within-le b _ s.topics (λ j. omega arith) k
  advance_all-Within (i ∷ is) b s k =
      Within-le _ _ (advance_all is (advance i s)).topics (λ j. omega arith)
        (advance_all-Within is (λ j. b j - is_at i j) (advance i s)
          (advance_at-Within i b s.topics s.world k))

  abbrev pub ArePresent : List (Topic O) → Type 0
  ArePresent = All (λ t. t.passed ≢ silent)

  ended-waits :
      (r : Outcome (Option Sub)) (fs : List (Action O))
      → left r fs ≤ 0
      → r ≢ silent
      → waits r fs ≤ fails r
  ended-waits (done o) [] e ne = omega arith
  ended-waits (done o) (f ∷ fs) e ne = absurd (omega arith)
  ended-waits (fail x) fs e ne = omega arith
  ended-waits silent fs e ne = absurd (ne refl)

  all-ended :
      (b : ℕ → ℕ) (ts : List (Topic O))
      → ((j : ℕ) → j < length ts → b j ≡ 0)
      → Within b ts
      → ArePresent ts
      → all_waits ts ≤ all_fails ts
  all-ended b [] z k p = omega arith
  all-ended b (t ∷ ts) z (k, ks) (p, ps) =
      let here = ended-waits t.passed t.actions (omega (arith, z 0 (omega arith))) p in
      let rest = all-ended (λ j. b (suc j)) ts (λ j l. z (suc j) (omega arith)) ks ps in omega arith

  length-advance_at :
      (i : ℕ) (ts : List (Topic O)) (w : World O) → length (advance_at i ts w).0 ≡ length ts
  unfolding advance_at
  length-advance_at i [] w = refl
  length-advance_at zero (t ∷ ts) w = refl
  length-advance_at (suc i) (t ∷ ts) w = ap suc (length-advance_at i ts w)

  length-advance_all :
      (is : List ℕ) (s : Topics O) → length (advance_all is s).topics ≡ length s.topics
  unfolding advance_all advance
  length-advance_all [] s = refl
  length-advance_all (i ∷ is) s =
      length-advance_all is (advance i s) ∙ length-advance_at i s.topics s.world

called-Counts : (n b : ℕ) (p : Parallel) → n ≤ b → Counts n b p → length p.calls ≡ 1
called-Counts n b p le (waiting m x y) = absurd (omega arith)
called-Counts n b p le (complete x y) = refl
called-Counts n b p le (broken k e x) = refl

length-topic_actions :
    {O : Type 0} (h : Host O) (c : ℕ) (restore : Bool) (all : List Sub) (sub : Sub)
    → length (topic_actions h c restore all sub) ≡ steps restore
unfolding topic_actions
length-topic_actions h c true all sub = refl
length-topic_actions h c false all sub = refl

module _ {O : Type 0} (h : Host O) (c : ℕ) (restore : Bool) (all : List Sub) where
  begin-Within :
      (subs : List Sub) → Within (λ _. steps restore) (map (begin_topic h c restore all) subs)
  unfolding begin_topic
  begin-Within [] = tt
  begin-Within (sub ∷ subs) =
      (omega (arith, length-topic_actions h c restore all sub), begin-Within subs)

  begin-length :
      (subs : List Sub) (w : World O)
      → length (begin_subscribe h c restore all subs w).topics ≡ length subs
  unfolding begin_subscribe
  begin-length subs w = length-map (begin_topic h c restore all) subs

  -- Once every topic has had its turns, if none of them is silent.
  pub present-calls :
      (subs : List Sub) (is : List ℕ) (w : World O)
      → ((j : ℕ) → j < length subs → steps restore ≤ turns j is)
      → let s = advance_all is (begin_subscribe h c restore all subs w) in
        ArePresent s.topics → length s.parallel.calls ≡ 1
  unfolding begin_subscribe
  present-calls subs is w fair present =
      let s0 = begin_subscribe h c restore all subs w in
      let s = advance_all is s0 in
      called-Counts _ _ s.parallel
        (all-ended (λ j. steps restore - turns j is) s.topics
          (λ j l.
            omega (arith, fair j (omega (arith, l, length-advance_all is s0, begin-length subs w))))
          (advance_all-Within is (λ _. steps restore) s0 (begin-Within subs)) present)
        (advance_all-IsCounted is s0 (begin-IsCounted h c restore all subs w))
