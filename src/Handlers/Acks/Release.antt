-- ===== src/Handlers/Acks/Release.antt =====
-- A PUBREL, and the store of incoming packets (lib/handlers/pubrel.js).
use mathlib.Core.Path.{subst}
use aedes.Common.{
  List, if_true, Bool-cases, inl, inr, ◌⊎◌, ℕ, ◌≡◌, ◌≢◌, refl, sym, ap, ◌∙◌, ◌||◌, false, true, [],
  ◌∷◌, Option, none, some, Text, if_both,
}
use aedes.Run.{Outcome, done, fail, silent, M, pure, continue_with, settle_with, run_series}
use aedes.Run.Laws.{settle_done, settle_fail, bind_kept}
use aedes.Packet.{Packet}
use aedes.World.{
  World, Host, Written, threw, taken, full, Request, requested, asks_incoming_get,
  asks_incoming_del,
}
use aedes.World.Steps.{note, request}
use aedes.Write.{wait, after_write, write}
use aedes.Write.Laws.{write-At}
use aedes.Delivery.{KeepsIncoming, Serves, IsSteady, IsNoEmission}
use aedes.Delivery.Rules.{Sees, At, note-At}
use aedes.Handlers.Acks.{
  pub_comp, PubrelArg, pubrel_get, pubrel_delete, pubrel_write, pubrel_actions, handle_pubrel,
}

module _ {O : Type 0} (c : ℕ) (stored : Option Text → Option ℕ → O → Type 0) (id : Option Text)
    (m : Option ℕ) (h : Host O) (laws : KeepsIncoming h stored id m) (serves : Serves h stored id m)
    (steady : IsSteady h c) (k : ℕ) where
  -- Exactly `k` packets were given to the message queue; and the packet is not in the store.
  abbrev Kept : World O → Type 0
  Kept w = At c stored id m k k false w

  abbrev Released : World O → Type 0
  Released w = Kept w × (¬ stored id m w.outside)

  -- A call that may change the store.
  request-Kept :
      {A : Type 0} (q : Request) (answer : O → Outcome A × O) (w : World O)
      → IsNoEmission (requested q)
      → Kept w
      → Kept (request h (some c) q answer w).1
  request-Kept q answer w quiet a =
      let a' = note-At c stored id m k (requested q) w quiet a in
      let asked = note (some c) (requested q) w in
      let w1 : World O = record asked { outside = (answer w.outside).1 } in
      subst (λ v. Sees c stored id m k k false v (h.meanwhile w1).outside) (sym (steady w1))
        (record { owner = a'.owner; least = a'.least; few = a'.few; kept = λ e. cc })

  write-free :
      (p : Packet) (w : World O)
      → (¬ stored id m w.outside)
      → ¬ stored id m (write h c p w).1.outside
  unfolding write after_write wait
  write-free p w free =
      if_both {A = Outcome (Unit {0}) × World O} (λ r. ¬ stored id m r.1.outside)
        ((w.clients c).connecting || (w.clients c).connected)
        (after (h.write_to_stream c p w.outside).0) (λ st. free (serves.new_meanwhile _ st))
    where
      after :
          (r : Written)
          → ¬ stored id m
              (after_write h c p r
                (record w { outside = (h.write_to_stream c p w.outside).1 })).1.outside
      after threw st = free (serves.new_write c p w.outside (serves.new_meanwhile _ st))
      after taken st = free (serves.new_write c p w.outside (serves.new_meanwhile _ st))
      after full st =
          if_both {A = Outcome (Unit {0}) × World O} (λ r. ¬ stored id m r.1.outside)
            (w.clients c).errored
            (λ st'. free (serves.new_write c p w.outside (serves.new_meanwhile _ st')))
            (λ st'. free (
              serves.new_write c p w.outside (serves.new_drained c _ (serves.new_meanwhile _ st'))))
            st

  write-Released : (p : Packet) (w : World O) → Released w → Released (write h c p w).1
  write-Released p w (a, free) = (write-At c stored id m k h laws steady p w a, write-free p w free)

  module _ (p : Packet) (same : p.message_id ≡ m) where
    get_request : World O → Outcome (Option Packet) × World O
    get_request w = request h (some c) (asks_incoming_get p) (h.incoming_get (w.clients c).id p) w

    -- After the look into the store the packet was found, or is not there.
    abbrev Got : PubrelArg → World O → Type 0
    Got arg w = Kept w × ((arg.found_in_store ≡ true) ⊎ (¬ stored id m w.outside))

    get-Got :
        (arg : PubrelArg) (w : World O)
        → Kept w
        → (x : Outcome (Option Packet)) → (h.incoming_get id p w.outside).0 ≡ x
        → (arg' : PubrelArg) × (w' : World O) × (pubrel_get h c p arg w ≡ (done arg', w'))
          × Got arg' w'
    unfolding pubrel_get get_request
    get-Got arg w a x e =
        let r = get_request w in
        let owned : r.0 ≡ x = subst (λ i. (h.incoming_get i p w.outside).0 ≡ x) (sym a.owner) e in
        let kept : Kept r.1 =
          request-Kept (asks_incoming_get p) (h.incoming_get (w.clients c).id p) w (λ es. refl) a in
        let before : stored id m r.1.outside → stored id m w.outside = λ st.
          serves.new_get p w.outside (
            subst (λ i. stored id m (h.incoming_get i p w.outside).1) a.owner
              (serves.new_meanwhile _ st)) in
        by_outcome x e owned kept before
      where
        by_outcome :
            (x : Outcome (Option Packet))
            → (h.incoming_get id p w.outside).0 ≡ x
            → (get_request w).0 ≡ x
            → Kept (get_request w).1
            → (stored id m (get_request w).1.outside → stored id m w.outside)
            → (arg' : PubrelArg) × (w' : World O) × (pubrel_get h c p arg w ≡ (done arg', w'))
              × Got arg' w'
        by_outcome (done (some q)) e owned kept before = (
          record { found_in_store = true },
          (get_request w).1,
          settle_done _ _ (get_request w) (some q) owned,
          (kept, inl refl),
        )
        by_outcome (done none) e owned kept before = (
          record { found_in_store = false },
          (get_request w).1,
          settle_done _ _ (get_request w) none owned,
          (kept, inr (λ st. let (q, there) = serves.gives p w.outside same (before st) in cc)),
        )
        by_outcome (fail x) e owned kept before = (
          record { found_in_store = false },
          (get_request w).1,
          settle_fail _ _ (get_request w) x owned,
          (kept, inr (λ st. let (q, there) = serves.gives p w.outside same (before st) in cc)),
        )
        by_outcome silent e owned kept before = absurd (serves.answers_get p w.outside e)

    delete_request : World O → Outcome (Unit {0}) × World O
    delete_request w =
        request h (some c) (asks_incoming_del p) (h.incoming_del (w.clients c).id p) w

    -- Whatever the deletion answers, the packet is gone.
    deleted : (w : World O) → Kept w → Released (delete_request w).1
    unfolding delete_request
    deleted w a = (
      request-Kept (asks_incoming_del p) (h.incoming_del (w.clients c).id p) w (λ es. refl) a,
      λ st. serves.deletes p w.outside same (
          subst (λ i. stored id m (h.incoming_del i p w.outside).1) a.owner
            (serves.new_meanwhile _ st)),
    )

    delete_found :
        (arg : PubrelArg) (w : World O)
        → arg.found_in_store ≡ true
        → Kept w
        → (w' : World O) × (pubrel_delete h c p arg w ≡ (done arg, w')) × Released w'
    unfolding pubrel_delete delete_request
    delete_found arg w found a = (
      (delete_request w).1,
      if_true _ _ _ found ∙ settled (delete_request w) answered,
      deleted w a,
    )
      where
        answered : (delete_request w).0 ≢ silent
        answered e =
            serves.answers_del p w.outside
              (subst (λ i. (h.incoming_del i p w.outside).0 ≡ silent) a.owner e)

        settled :
            (r : Outcome (Unit {0}) × World O)
            → r.0 ≢ silent
            → settle_with (λ _. pure arg) (λ _. pure arg) r ≡ (done arg, r.1)
        settled (done _, s) q = refl
        settled (fail e, s) q = refl
        settled (silent, s) q = absurd (q refl)

    delete-Released :
        (arg : PubrelArg) (w : World O)
        → Got arg w
        → (w' : World O) × (pubrel_delete h c p arg w ≡ (done arg, w')) × Released w'
    unfolding pubrel_delete
    delete-Released arg w (a, inl found) = delete_found arg w found a
    delete-Released arg w (a, inr free) = elim (Bool-cases arg.found_in_store) [
      | inl found ↦ delete_found arg w found a
      | inr missed ↦ (w, rw missed refl, (a, free))
    ]

    -- Once PUBREL has been handled the packet is not in the store, and nothing was given to the
    -- message queue.
    pub handle_pubrel-Released : (w : World O) → Kept w → Released (handle_pubrel h c p w).1
    unfolding handle_pubrel pubrel_actions pubrel_write run_series
    handle_pubrel-Released w a =
        let start : PubrelArg = record { found_in_store = false } in
        let (arg, w1, e1, got) = get-Got start w a (h.incoming_get id p w.outside).0 refl in
        let (w2, e2, gone) = delete-Released arg w1 got in
        let rest : List (PubrelArg → M (World O) PubrelArg) =
          pubrel_delete h c p ∷ pubrel_write h c p ∷ [] in
        let last : List (PubrelArg → M (World O) PubrelArg) = pubrel_write h c p ∷ [] in
        let all : run_series (pubrel_actions h c p) start w ≡ run_series last arg w2 =
          ap (continue_with (run_series rest)) e1 ∙ ap (continue_with (run_series last)) e2 in
        bind_kept Released (λ _. pure tt) (run_series (pubrel_actions h c p) start w)
          (subst (λ r. Released r.1) (sym all)
            (bind_kept Released _ (pubrel_write h c p arg w2)
              (bind_kept Released (λ _. pure arg) (write h c (pub_comp p) w2)
                (write-Released (pub_comp p) w2 gone) (λ _ s q. q))
              (λ _ s q. q)))
          (λ _ s q. q)
