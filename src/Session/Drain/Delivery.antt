-- ===== src/Session/Drain/Delivery.antt =====
-- When, and in what order, the callbacks that wait for a socket to drain are called
-- (lib/client.js).
use mathlib.Core.List.{append-nil, append_assoc, map-append}
use aedes.Common.{
  ℕ, ◌<◌, ◌≡◌, refl, ap, sym, ◌∙◌, true, false, List, [], ◌∷◌, ◌++◌, map, Option, none, some, arith,
  ◌↔◌,
}
use aedes.Errors.{Error, drain_timeout, connection_closed}
use aedes.World.{Client}
use aedes.Session.Drain.{
  Call, answer, drain_event, DrainEvent, waits, drains, times_out, flushes, finishes, drain_step,
  drain_run, waited,
}

-- While callbacks wait the timer runs and the listener is on, and the other way round. Only
-- without a timeout are callbacks listeners themselves.
pub record DrainsAreWatched (client : Client) : Type 0 where
  pub timed : client.drain_timer ≡ client.drain_listener
  pub watched : (client.drain_timer ≡ false) ↔ (client.pending_drains ≡ [])
  pub bound : client.drain_timer ≡ true → client.drain_bound ≡ true
  pub coalesced : client.drain_callbacks ≡ []

-- The events after which nothing waits.
abbrev pub Ends : DrainEvent → Type 0
Ends (waits k) = ⊥
Ends _ = Unit

waited-Ends : (e : DrainEvent) → Ends e → waited (e ∷ []) ≡ []
waited-Ends (waits k) h = absurd h
waited-Ends _ h = refl

abbrev pub called : List Call → List ℕ
called = map (λ c. c.0)

module _ (timeout : ℕ) (positive : 0 < timeout) where
  drain_step-DrainsAreWatched :
      (e : DrainEvent) (client : Client)
      → DrainsAreWatched client
      → DrainsAreWatched (drain_step timeout e client).1
  unfolding drain_step
  drain_step-DrainsAreWatched (waits k) client v = ground arith
  drain_step-DrainsAreWatched _ client v = ground arith

  waited_of : DrainEvent → List ℕ
  waited_of e = waited (e ∷ [])

  called-answer : (e : Option Error) (ks : List ℕ) → called (answer e ks) ≡ ks
  called-answer e [] = refl
  called-answer e (k ∷ ks) = ap (◌∷◌ k) (called-answer e ks)

  drain_event-pending :
      (client : Client)
      → DrainsAreWatched client
      → called (drain_event client).0 ++ (drain_event client).1.pending_drains
        ≡ client.pending_drains ++ []
  unfolding drain_event
  drain_event-pending client v = ground (
    arith,
    called-answer none client.pending_drains,
    append-nil client.pending_drains,
    append-nil (answer none client.pending_drains),
    append-nil (called (answer none client.pending_drains)),
  )

  drain_step-pending :
      (e : DrainEvent) (client : Client)
      → DrainsAreWatched client
      → called (drain_step timeout e client).0 ++ (drain_step timeout e client).1.pending_drains
        ≡ client.pending_drains ++ waited_of e
  unfolding drain_step waited_of
  drain_step-pending (waits k) client v = ground arith
  drain_step-pending drains client v = drain_event-pending client v
  drain_step-pending times_out client v = ground (
    arith,
    called-answer (some drain_timeout) client.pending_drains,
    append-nil client.pending_drains,
  )
  drain_step-pending flushes client v =
      rw (called-answer (some connection_closed) client.pending_drains)
  drain_step-pending finishes client v = drain_event-pending client v

  waited-cons : (e : DrainEvent) (es : List DrainEvent) → waited (e ∷ es) ≡ waited_of e ++ waited es
  unfolding waited_of
  waited-cons (waits k) es = refl
  waited-cons _ es = refl

  waited-append : (es fs : List DrainEvent) → waited (es ++ fs) ≡ waited es ++ waited fs
  waited-append [] fs = refl
  waited-append (waits k ∷ es) fs = ap (◌∷◌ k) (waited-append es fs)
  waited-append (drains ∷ es) fs = waited-append es fs
  waited-append (times_out ∷ es) fs = waited-append es fs
  waited-append (flushes ∷ es) fs = waited-append es fs
  waited-append (finishes ∷ es) fs = waited-append es fs

  pub drain_run-pending :
      (es : List DrainEvent) (client : Client)
      → DrainsAreWatched client
      → DrainsAreWatched (drain_run timeout es client).1
        × (called (drain_run timeout es client).0 ++ (drain_run timeout es client).1.pending_drains
            ≡ client.pending_drains ++ waited es)
  unfolding drain_run
  drain_run-pending [] client v = (v, sym (append-nil client.pending_drains))
  drain_run-pending (e ∷ es) client v =
      let next = drain_step timeout e client in
      let rest = drain_run timeout es next.1 in
      let (v', later) = drain_run-pending es next.1 (drain_step-DrainsAreWatched e client v) in
      (
        v',
        simp (map-append, append_assoc)
            (simp later (
              sym (append_assoc (called next.0) next.1.pending_drains (waited es))
              ∙ ap (λ l. l ++ waited es) (drain_step-pending e client v)
              ∙ append_assoc client.pending_drains (waited_of e) (waited es)
              ∙ ap (◌++◌ client.pending_drains) (sym (waited-cons e es)))),
      )

  drain_step-Ends :
      (e : DrainEvent) (client : Client)
      → DrainsAreWatched client
      → Ends e
      → (drain_step timeout e client).1.pending_drains ≡ []
  unfolding drain_step
  drain_step-Ends (waits k) client v h = absurd h
  drain_step-Ends _ client v h = ground arith

  drain_run-concat :
      (es : List DrainEvent) (e : DrainEvent) (client : Client)
      → (drain_run timeout (es ++ (e ∷ [])) client).1
        ≡ (drain_step timeout e (drain_run timeout es client).1).1
  unfolding drain_run
  drain_run-concat [] e client = refl
  drain_run-concat (d ∷ es) e client = drain_run-concat es e (drain_step timeout d client).1

  -- With a positive timeout, and nothing waiting at first: after any events, of which the last is
  -- 'drain', the timeout or a part of `close`, each callback handed to `waitForDrain` has been
  -- called exactly once, in the order in which they were handed over, none waits, and no timer
  -- runs.
  pub drain_run-called :
      (es : List DrainEvent) (e : DrainEvent) (client : Client)
      → DrainsAreWatched client
      → client.pending_drains ≡ []
      → Ends e
      → (called (drain_run timeout (es ++ (e ∷ [])) client).0 ≡ waited es)
        × ((drain_run timeout (es ++ (e ∷ [])) client).1.pending_drains ≡ [])
        × ((drain_run timeout (es ++ (e ∷ [])) client).1.drain_timer ≡ false)
  drain_run-called es e client v start ends =
      let r = drain_run timeout (es ++ (e ∷ [])) client in
      let (v', all) = drain_run-pending (es ++ (e ∷ [])) client v in
      let (before, _) = drain_run-pending es client v in
      let none_left : r.1.pending_drains ≡ [] =
        rw (drain_run-concat es e client)
          (drain_step-Ends e (drain_run timeout es client).1 before ends) in
      (
        sym (append-nil (called r.0))
            ∙ ap (◌++◌ (called r.0)) (sym none_left)
            ∙ all
            ∙ ap (λ l. l ++ waited (es ++ (e ∷ []))) start
            ∙ waited-append es (e ∷ [])
            ∙ ap (◌++◌ (waited es)) (waited-Ends e ends)
            ∙ append-nil (waited es),
        none_left,
        v'.watched.1 none_left,
      )
