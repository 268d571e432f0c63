-- ===== src/Handlers/Acks/Pubcomp.antt =====
-- The answer to a PUBREL (lib/handlers/pubrel.js).
use aedes.Common.{ℕ, ◌≡◌, refl, ◌≢◌, false, [], ◌∷◌, Option, some, Text, if_both, ap, ◌∙◌}
use aedes.Errors.{Error}
use aedes.Run.{Outcome, done, fail, silent, M, pure, continue_with, settle_with, run_series}
use aedes.Packet.{Packet}
use aedes.World.{World, Host, asks_incoming_get, asks_incoming_del}
use aedes.World.Steps.{request}
use aedes.Write.{write}
use aedes.Handlers.Acks.{
  pub_comp, PubrelArg, is_found, pubrel_get, pubrel_delete, pubrel_write, pubrel_actions,
  handle_pubrel,
}

-- The persistence answers each of the two calls that PUBREL makes, be it by an error.
pub record Answers {O : Type 0} (h : Host O) : Type 0 where
  pub get_answers : (id : Option Text) (p : Packet) (o : O) → (h.incoming_get id p o).0 ≢ silent
  pub del_answers : (id : Option Text) (p : Packet) (o : O) → (h.incoming_del id p o).0 ≢ silent

settle_answers :
    {S A B : Type 0} (P : Outcome B × S → Type 0) (f : A → M S B) (g : Error → M S B)
    (r : Outcome A × S)
    → r.0 ≢ silent
    → ((a : A) (s : S) → P (f a s))
    → ((e : Error) (s : S) → P (g e s))
    → P (settle_with f g r)
settle_answers P f g (done a, s) h pf pg = pf a s
settle_answers P f g (fail e, s) h pf pg = pg e s
settle_answers P f g (silent, s) h pf pg = absurd (h refl)

-- A step that ends well, in whatever state.
abbrev GoesOn : {S A : Type 0} → Outcome A × S → Type 0
GoesOn {S} {A} r = (a : A) × (s : S) × (r ≡ (done a, s))

module _ {O : Type 0} (h : Host O) (c : ℕ) (answers : Answers h) (p : Packet) where
  get-GoesOn : (arg : PubrelArg) (w : World O) → GoesOn (pubrel_get h c p arg w)
  unfolding pubrel_get
  get-GoesOn arg w =
      settle_answers GoesOn _ _
        (request h (some c) (asks_incoming_get p) (h.incoming_get (w.clients c).id p) w)
        (answers.get_answers (w.clients c).id p w.outside)
        (λ found s. (record { found_in_store = is_found found }, s, refl))
        (λ e s. (record { found_in_store = false }, s, refl))

  delete-GoesOn : (arg : PubrelArg) (w : World O) → GoesOn (pubrel_delete h c p arg w)
  unfolding pubrel_delete
  delete-GoesOn arg w =
      if_both GoesOn arg.found_in_store
        (settle_answers GoesOn _ _
          (request h (some c) (asks_incoming_del p) (h.incoming_del (w.clients c).id p) w)
          (answers.del_answers (w.clients c).id p w.outside) (λ _ s. (arg, s, refl))
          (λ _ s. (arg, s, refl)))
        (arg, w, refl)

  drop_all :
      (r : Outcome (Unit {0}) × World O) (arg : PubrelArg)
      → continue_with
          (λ _. pure tt)
          (continue_with pure (continue_with {B = PubrelArg} (λ _. pure arg) r))
        ≡ r
  drop_all (done tt, w) arg = refl
  drop_all (fail e, w) arg = refl
  drop_all (silent, w) arg = refl

  -- If the persistence answers, then whatever it answers (the packet found, not found, or not
  -- deleted) a PUBREL ends in the write of a PUBCOMP with its message id, whose outcome is that of
  -- the handler.
  pub handle_pubrel-pub_comp :
      (w : World O) → (w' : World O) × (handle_pubrel h c p w ≡ write h c (pub_comp p) w')
  unfolding handle_pubrel pubrel_actions pubrel_write run_series
  handle_pubrel-pub_comp w =
      let (arg, w1, e1) = get-GoesOn (record { found_in_store = false }) w in
      let (arg', w2, e2) = delete-GoesOn arg w1 in
      (
        w2,
        ap
              (λ r.
                continue_with (λ _. pure tt)
                  (continue_with (run_series (pubrel_delete h c p ∷ pubrel_write h c p ∷ [])) r))
              e1
            ∙ ap
                (λ r.
                  continue_with (λ _. pure tt)
                    (continue_with (run_series (pubrel_write h c p ∷ [])) r))
                e2
            ∙ drop_all (write h c (pub_comp p) w2) arg',
      )
