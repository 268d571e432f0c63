-- ===== src/Handlers/Subscribe/Interleaving/Sequential.antt =====
-- The topics of a SUBSCRIBE one after the other, as Handlers/Subscribe.antt has them, among the
-- orders in which their actions may run (lib/handlers/subscribe.js).
use aedes.Common.{
  ℕ, zero, suc, ◌≡◌, refl, sym, ap, ◌∙◌, Bool, true, false, List, [], ◌∷◌, some, map, length,
}
use aedes.Flow.{Parallel, launch, complete_all}
use aedes.Flow.Sequential.{complete_all-append, calls_of, all_calls}
use aedes.Packet.{Sub}
use aedes.World.{World, Host}
use aedes.Handlers.Subscribe.{topic_actions, do_subscribe, subscribe_all}
use aedes.Handlers.Subscribe.Parallel.{outcomes, subscribe_all-complete_all}
use aedes.Handlers.Subscribe.Interleaving.{Topic, advance_all, begin_topic, begin_subscribe}
use aedes.Handlers.Subscribe.Interleaving.Turns.{
  repeat, cons_topic, Completes, advance_all-later, run_fall-Completes,
}

-- Each of the topics, the first one first, runs so many actions.
abbrev pub in_turn : ℕ → ℕ → List ℕ
in_turn k zero = []
in_turn k (suc n) = repeat k 0 (map suc (in_turn k n))

-- A restored topic has two actions, another has three.
abbrev pub steps : Bool → ℕ
steps true = 2
steps false = 3

module _ {O : Type 0} (h : Host O) (c : ℕ) where
  do_subscribe-Completes :
      (restore : Bool) (all : List Sub) (sub : Sub) (ts : List (Topic O)) (w : World O)
      (p : Parallel) (is : List ℕ)
      → Completes
          (topic_actions h c restore all sub)
          (steps restore)
          (some sub)
          (record { world = w; granted = sub.qos })
          ts
          p
          is
  unfolding topic_actions
  do_subscribe-Completes true all sub ts w p is = run_fall-Completes _ _ _ _ ts p is
  do_subscribe-Completes false all sub ts w p is = run_fall-Completes _ _ _ _ ts p is

  -- Where the steps in turn come to, from the topics `ts`.
  record InTurn (restore : Bool) (all subs : List Sub) (w : World O) (p : Parallel) : Type 0 where
    topics : List (Topic O)
    reached :
        advance_all
          (in_turn (steps restore) (length subs))
          (record { world = w; topics = map (begin_topic h c restore all) subs; parallel = p })
        ≡ record {
          world = (subscribe_all h c restore all subs w).2;
          topics = topics;
          parallel = complete_all p (all_calls (outcomes h c restore all subs w));
        }
    granted : map (λ t. t.granted) topics ≡ (subscribe_all h c restore all subs w).1

  begin-InTurn :
      (restore : Bool) (all subs : List Sub) (w : World O) (p : Parallel)
      → InTurn restore all subs w p
  unfolding subscribe_all advance_all complete_all begin_topic do_subscribe
  begin-InTurn restore all [] w p = record { topics = []; reached = refl; granted = refl }
  begin-InTurn restore all (sub ∷ subs) w p =
      let r = do_subscribe h c restore all sub w in
      let ts = map (begin_topic h c restore all) subs in
      let is = map suc (in_turn (steps restore) (length subs)) in
      let (t, e, g) = do_subscribe-Completes restore all sub ts w p is in
      let p' = complete_all p (calls_of r.0) in
      let next = begin-InTurn restore all subs r.1.world p' in
      record {
        topics = t ∷ next.topics;
        reached =
            e
            ∙ advance_all-later (in_turn (steps restore) (length subs)) t
                (record { world = r.1.world; topics = ts; parallel = p' })
            ∙ ap (cons_topic t) next.reached
            ∙ ap
                (λ q. record {
                  world = (subscribe_all h c restore all subs r.1.world).2;
                  topics = t ∷ next.topics;
                  parallel = q;
                })
                (sym (
                  complete_all-append (calls_of r.0) p
                    (all_calls (outcomes h c restore all subs r.1.world))));
        granted =
            ap (λ x. x ∷ map (λ y. y.granted) next.topics) g
            ∙ ap (λ l. r.1.granted ∷ l) next.granted;
      }

  -- One of the orders in which the topics of a SUBSCRIBE, or of a session that is restored, may run
  -- their actions is that each runs all of them before the next topic begins; it comes to what
  -- the model of the handler says: the same world, the same granted QoS for every topic, and the call
  -- of runParallel's `done` that the outcome stands for, if any.
  pub advance_all-in_turn :
      (restore : Bool) (all subs : List Sub) (w : World O)
      → let s =
          advance_all
            (in_turn (steps restore) (length subs))
            (begin_subscribe h c restore all subs w) in
        let (r, granted, w') = subscribe_all h c restore all subs w in
        s.world ≡ w' × map (λ t. t.granted) s.topics ≡ granted × s.parallel.calls ≡ calls_of r
  unfolding begin_subscribe
  advance_all-in_turn restore all subs w =
      let i = begin-InTurn restore all subs w (launch (length subs)) in
      (
        ap (λ s. s.world) i.reached,
        ap (λ s. map (λ t. t.granted) s.topics) i.reached ∙ i.granted,
        ap (λ s. s.parallel.calls) i.reached ∙ subscribe_all-complete_all h c restore all subs w,
      )
