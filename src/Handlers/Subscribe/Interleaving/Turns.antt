-- ===== src/Handlers/Subscribe/Interleaving/Turns.antt =====
-- One topic of a SUBSCRIBE that runs its actions while the others wait (`runFall` of lib/utils.js).
use aedes.Common.{ℕ, zero, suc, ◌≡◌, refl, ◌∙◌, List, [], ◌∷◌, Option, map, length}
use aedes.Errors.{Error}
use aedes.Run.{Outcome, done, fail, silent, pure, continue_with, run_fall}
use aedes.Flow.{Parallel, complete_all}
use aedes.Flow.Sequential.{calls_of}
use aedes.Packet.{Sub}
use aedes.World.{World}
use aedes.Handlers.Subscribe.{Item}
use aedes.Handlers.Subscribe.Interleaving.{
  Action, Topic, Topics, callbacks, next_action, advance_at, advance, advance_all,
}

abbrev pub repeat : ℕ → ℕ → List ℕ → List ℕ
repeat zero i is = is
repeat (suc k) i is = i ∷ repeat k i is

module _ {O : Type 0} where
  abbrev pub cons_topic : Topic O → Topics O → Topics O
  cons_topic t s = record { world = s.world; topics = t ∷ s.topics; parallel = s.parallel }

  pub advance_all-later :
      (is : List ℕ) (t : Topic O) (s : Topics O)
      → advance_all (map suc is) (cons_topic t s) ≡ cons_topic t (advance_all is s)
  unfolding advance_all advance advance_at
  advance_all-later [] t s = refl
  advance_all-later (i ∷ is) t s = advance_all-later is t (advance i s)

  abbrev pub at_first : Topic O → List (Topic O) → World O → Parallel → Topics O
  at_first t ts w p = record { world = w; topics = t ∷ ts; parallel = p }

  abbrev pub topic : ℕ → Outcome (Option Sub) → List (Action O) → Topic O
  topic g r fs = record { granted = g; passed = r; actions = fs }

  -- The first topic calls its next action.
  first :
      (f : Action O) (fs : List (Action O)) (o : Option Sub) (s : Item O) (ts : List (Topic O))
      (p : Parallel) (is : List ℕ)
      → let (r, s') = f o s in
        advance_all (0 ∷ is) (at_first (topic s.granted (done o) (f ∷ fs)) ts s.world p)
        ≡ advance_all is
            (at_first (topic s'.granted r fs) ts s'.world (complete_all p (callbacks r fs)))
  unfolding advance_all advance advance_at next_action
  first f fs o s ts p is = refl

  advance_all-failed :
      (k g : ℕ) (e : Error) (fs : List (Action O)) (ts : List (Topic O)) (w : World O)
      (p : Parallel) (is : List ℕ)
      → advance_all (repeat k 0 is) (at_first (topic g (fail e) fs) ts w p)
        ≡ advance_all is (at_first (topic g (fail e) fs) ts w p)
  unfolding advance_all advance advance_at next_action complete_all
  advance_all-failed zero g e fs ts w p is = refl
  advance_all-failed (suc k) g e fs ts w p is = advance_all-failed k g e fs ts w p is

  advance_all-silent :
      (k g : ℕ) (fs : List (Action O)) (ts : List (Topic O)) (w : World O) (p : Parallel)
      (is : List ℕ)
      → advance_all (repeat k 0 is) (at_first (topic g silent fs) ts w p)
        ≡ advance_all is (at_first (topic g silent fs) ts w p)
  unfolding advance_all advance advance_at next_action complete_all
  advance_all-silent zero g fs ts w p is = refl
  advance_all-silent (suc k) g fs ts w p is = advance_all-silent k g fs ts w p is

  -- From the callback of an action to the end of `runFall`.
  abbrev Ends :
      List (Action O) → Outcome (Option Sub) × Item O → List (Topic O) → Parallel → List ℕ → Type 0
  Ends fs (r, s) ts p is =
      let (r', s') = continue_with (run_fall fs) (r, s) in
      (rest : List (Action O)) × advance_all (repeat (length fs) 0 is)
          (at_first (topic s.granted r fs) ts s.world (complete_all p (callbacks r fs)))
        ≡ advance_all is (
            at_first (topic s'.granted r' rest) ts s'.world
              (complete_all p (callbacks {O = O} r' [])))

  action-Ends :
      (fs : List (Action O)) (r : Outcome (Option Sub) × Item O) (ts : List (Topic O))
      (p : Parallel) (is : List ℕ)
      → Ends fs r ts p is
  unfolding run_fall callbacks complete_all
  action-Ends [] (done o, s) ts p is = ([], refl)
  action-Ends (f ∷ fs) (done o, s) ts p is =
      let (rest, e) = action-Ends fs (f o s) ts p is in
      (rest, first f fs o s ts p (repeat (length fs) 0 is) ∙ e)
  action-Ends fs (fail e, s) ts p is =
      (fs, advance_all-failed (length fs) s.granted e fs ts s.world _ is)
  action-Ends fs (silent, s) ts p is =
      (fs, advance_all-silent (length fs) s.granted fs ts s.world _ is)

  -- The same with the end of `doSubscribe`.
  abbrev pub Completes :
      List (Action O) → ℕ → Option Sub → Item O → List (Topic O) → Parallel → List ℕ → Type 0
  Completes fs k o s ts p is =
      let (r, s') = continue_with (λ _. pure tt) (run_fall fs o s) in
      (t : Topic O) × advance_all (repeat k 0 is)
          (at_first (topic s.granted (done o) fs) ts s.world p)
        ≡ advance_all is (at_first t ts s'.world (complete_all p (calls_of r)))
      × t.granted ≡ s'.granted

  pub run_fall-Completes :
      (f : Action O) (fs : List (Action O)) (o : Option Sub) (s : Item O) (ts : List (Topic O))
      (p : Parallel) (is : List ℕ)
      → Completes (f ∷ fs) (suc (length fs)) o s ts p is
  unfolding run_fall callbacks
  run_fall-Completes f fs o s ts p is =
      let (rest, e) = action-Ends fs (f o s) ts p is in
      closed (continue_with (run_fall fs) (f o s)) rest
        (first f fs o s ts p (repeat (length fs) 0 is) ∙ e)
    where
      closed :
          (r : Outcome (Option Sub) × Item O) (rest : List (Action O))
          → advance_all
              (repeat (suc (length fs)) 0 is)
              (at_first (topic s.granted (done o) (f ∷ fs)) ts s.world p)
            ≡ advance_all is (
                at_first
                  (topic r.1.granted r.0 rest)
                  ts
                  r.1.world
                  (complete_all p (callbacks {O = O} r.0 [])))
          → let (r', s') = continue_with (λ _. pure tt) r in
            (t : Topic O) × advance_all
                (repeat (suc (length fs)) 0 is)
                (at_first (topic s.granted (done o) (f ∷ fs)) ts s.world p)
              ≡ advance_all is (at_first t ts s'.world (complete_all p (calls_of r')))
            × t.granted ≡ s'.granted
      closed (done x, s') rest e = (topic s'.granted (done x) rest, e, refl)
      closed (fail x, s') rest e = (topic s'.granted (fail x) rest, e, refl)
      closed (silent, s') rest e = (topic s'.granted silent rest, e, refl)
