-- ===== src/Handlers/Unsubscribe/Closed.antt =====
-- Closed clients at the end of a `close`: `handleUnsubscribe` of
-- lib/handlers/unsubscribe.js, as `close` of lib/client.js calls it, and `_onError`.
use aedes.Common.{
  Bool, ◌≡◌, ◌≢◌, ℕ, true, refl, ◌&&◌, ◌||◌, not, List, none, some, Text, if_both, Option-cases,
  inl, inr, ltb, length,
}
use aedes.Errors.{Error}
use aedes.Run.{Outcome, done, fail, silent}
use aedes.World.{World, Host, destroyed, error_event, emitted, unsubscribe_event}
use aedes.World.Ends.{Speaks, Stable, Stable-Calm, speaks_of_nothing}
use aedes.World.Closed.{IsClosed, AreBoth-Stable}
use aedes.World.Steps.{set_client, emit}
use aedes.Dict.{keys}
use aedes.Broker.Publishing.Ending.{publish-Ends}
use aedes.Broker.Registry.Closed.{close-IsClosed, finish_close-IsClosed}
use aedes.Broker.Failure.{failure_event, destroy_once, on_error, emit_error}
use aedes.Handlers.Unsubscribe.{
  first_error, unsubscribe_all, announce_unsubscribes, acknowledge_unsubscribe,
  complete_unsubscribe, actual_unsubscribe, unsubscribe_valid, handle_unsubscribe, end_after,
  end_close,
}
use aedes.Handlers.Unsubscribe.Ending.{unsubscribe_all-Ends, handle_unsubscribe-ends}

module _ {O : Type 0} (h : Host O) (b : Bool) (c : ℕ)
    (stays : (w : World O) → IsClosed b c w → IsClosed b c (h.meanwhile w)) where
  stable : Stable h (IsClosed b c)
  stable = AreBoth-Stable true b c h stays

  destroy_once-IsClosed : (i : ℕ) (w : World O) → IsClosed b c w → IsClosed b c (destroy_once h i w)
  unfolding destroy_once
  destroy_once-IsClosed i w q = if_both (IsClosed b c) (w.clients i).conn_destroyed q (
      stable.noted (some i) destroyed
        (set_client i (record (w.clients i) { conn_destroyed = true }) w) (stable.set i _ w refl q))

  emit_error-IsClosed :
      (i : ℕ) (e : Error) (w : World O) → IsClosed b c w → IsClosed b c (emit_error h i e w)
  unfolding emit_error on_error
  emit_error-IsClosed i e w q =
      let w1 = emit (some i) (error_event e) w in
      let w2 = set_client i (record (w1.clients i) { errored = true }) w1 in
      let w3 = destroy_once h i w2 in
      close-IsClosed h b c stays i none (emit none (failure_event i e (w3.clients i).id) w3) (
        stable.noted none (emitted (failure_event i e (w3.clients i).id)) w3 (
          destroy_once-IsClosed i w2
            (stable.set i _ w1 refl (stable.noted (some i) (emitted (error_event e)) w q))))

  announce_unsubscribes-IsClosed :
      (i : ℕ) (ts : List Text) (w : World O)
      → IsClosed b c w
      → IsClosed b c (announce_unsubscribes h i ts w)
  unfolding announce_unsubscribes
  announce_unsubscribes-IsClosed i ts w q =
      (publish-Ends h (Unit {0}) (IsClosed b c) (Stable-Calm stable none) (speaks_of_nothing h) _
        (emit none (unsubscribe_event ts) w) q).0

  complete_unsubscribe-IsClosed :
      (i : ℕ) (ts : List Text) (r : Outcome (Unit {0}) × World O)
      → IsClosed b c r.1
      → IsClosed b c (complete_unsubscribe h i none ts r).1
  unfolding complete_unsubscribe acknowledge_unsubscribe
  complete_unsubscribe-IsClosed i ts (silent, w) q = q
  complete_unsubscribe-IsClosed i ts (fail e, w) q = emit_error-IsClosed i e w q
  complete_unsubscribe-IsClosed i ts (done tt, w) q =
      if_both (IsClosed b c)
        ((not (w.clients i).closed || (w.clients i).clean) && ltb 0 (length ts))
        (announce_unsubscribes-IsClosed i ts w q) q

  handle_unsubscribe-IsClosed :
      (i : ℕ) (ts : List Text) (w : World O)
      → IsClosed b c w
      → IsClosed b c (handle_unsubscribe h i none ts w).1
  unfolding handle_unsubscribe unsubscribe_valid actual_unsubscribe
  handle_unsubscribe-IsClosed i ts w q =
      elim (Option-cases (first_error w.broker.max_topic_levels ts)) [
        | inl valid ↦
            rw (valid, handle_unsubscribe)
              (complete_unsubscribe-IsClosed i ts (unsubscribe_all h i ts w)
                (unsubscribe_all-Ends h (Unit {0}) (IsClosed b c) stable (speaks_of_nothing h) i ts
                  w q).0)
        | inr (e, wrong) ↦ rw (wrong, handle_unsubscribe) q
      ]

  -- The callback of `close` comes, if the calls of the code outside end.
  module _ (speaks : Speaks h ⊥) where
    end_after-Ends :
        (i : ℕ) (r : Outcome (Unit {0}) × World O)
        → r.0 ≢ silent
        → IsClosed b c r.1
        → (end_after h i r).0 ≡ done tt × IsClosed b c (end_after h i r).1
    unfolding end_after
    end_after-Ends i (silent, w) ends q = absurd (ends refl)
    end_after-Ends i (fail e, w) ends q = (refl, finish_close-IsClosed h b c stays i w q)
    end_after-Ends i (done tt, w) ends q = (refl, finish_close-IsClosed h b c stays i w q)

    pub end_close-done :
        (i : ℕ) (w : World O)
        → IsClosed b c w
        → (end_close h i w).0 ≡ done tt × IsClosed b c (end_close h i w).1
    unfolding end_close
    end_close-done i w q =
        let ts = keys (w.clients i).subscriptions in
        end_after-Ends i (handle_unsubscribe h i none ts w)
          (handle_unsubscribe-ends h ⊥ (IsClosed b c) stable speaks i none ts w q)
          (handle_unsubscribe-IsClosed i ts w q)
