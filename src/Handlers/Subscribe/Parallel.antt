-- ===== src/Handlers/Subscribe/Parallel.antt =====
-- The topics of a SUBSCRIBE (lib/handlers/subscribe.js) as items of `runParallel` (lib/utils.js).
use aedes.Common.{ℕ, suc, ◌≡◌, refl, sym, ap, ◌∙◌, Bool, List, [], ◌∷◌, length}
use aedes.Run.{Outcome, both}
use aedes.Flow.{launch, complete_all}
use aedes.Flow.Sequential.{calls_of, all_calls, all_of, complete_all-all_of}
use aedes.Packet.{Sub}
use aedes.World.{World, Host}
use aedes.Handlers.Subscribe.{do_subscribe, subscribe_all}

module _ {O : Type 0} (h : Host O) (c : ℕ) (restore : Bool) (all : List Sub) where
  -- What becomes of each topic, when one is worked on after the other.
  abbrev pub outcomes : List Sub → World O → List (Outcome (Unit {0}))
  outcomes [] w = []
  outcomes (sub ∷ subs) w =
      let r = do_subscribe h c restore all sub w in r.0 ∷ outcomes subs r.1.world

  length-outcomes : (subs : List Sub) (w : World O) → length (outcomes subs w) ≡ length subs
  length-outcomes [] w = refl
  length-outcomes (sub ∷ subs) w =
      ap suc (length-outcomes subs (do_subscribe h c restore all sub w).1.world)

  subscribe_all-all_of :
      (subs : List Sub) (w : World O)
      → (subscribe_all h c restore all subs w).0 ≡ all_of (outcomes subs w)
  unfolding subscribe_all
  subscribe_all-all_of [] w = refl
  subscribe_all-all_of (sub ∷ subs) w =
      let r = do_subscribe h c restore all sub w in
      ap (both r.0) (subscribe_all-all_of subs r.1.world)

  -- If the topics of a SUBSCRIBE are worked on one after the other, then runParallel, given the
  -- callbacks that they make in that order, calls its `done` as the model of the handler says: once
  -- with the first error, else once with none if each topic has called back, else never.
  pub subscribe_all-complete_all :
      (subs : List Sub) (w : World O)
      → (complete_all (launch (length subs)) (all_calls (outcomes subs w))).calls
        ≡ calls_of (subscribe_all h c restore all subs w).0
  subscribe_all-complete_all subs w =
      ap (λ n. (complete_all (launch n) (all_calls (outcomes subs w))).calls)
        (sym (length-outcomes subs w))
      ∙ complete_all-all_of (outcomes subs w)
      ∙ ap calls_of (sym (subscribe_all-all_of subs w))
