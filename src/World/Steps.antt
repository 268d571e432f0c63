-- ===== src/World/Steps.antt =====
-- The elementary steps from which the handlers are made.
use aedes.Common.{ℕ, ◌∷◌, Option, none, some, ◌==◌, if◌then◌else◌}
use aedes.Run.{Outcome, M}
use aedes.World.{Client, World, Host, Effect, requested, emitted, Event, Request}

-- A write to one object of the heap of Client objects.
abbrev pub update : (ℕ → Client) → ℕ → Client → ℕ → Client
update heap c v i = if i == c then v else heap i

module _ {O : Type 0} where
  abbrev pub set_client : ℕ → Client → World O → World O
  set_client c v w = record w { clients = update w.clients c v }

  -- An effect goes to the trace of the client on whose behalf it is made, or else of the broker.
  abbrev pub note : Option ℕ → Effect → World O → World O
  note (some c) e w = record w {
    clients = update w.clients c (record (w.clients c) { trace = e ∷ (w.clients c).trace });
  }
  note none e w = record w { broker = record (w.broker) { trace = e ∷ w.broker.trace } }

  abbrev pub emit : Option ℕ → Event → World O → World O
  emit c e w = note c (emitted e) w

  -- A call of the code outside that comes back by a callback or a promise: other tasks run before.
  abbrev pub call_back : {A : Type 0} → Host O → Outcome A × O → World O → Outcome A × World O
  call_back h (r, o) w = (r, h.meanwhile (record w { outside = o }))

  abbrev pub request :
      {A : Type 0} → Host O → Option ℕ → Request → (O → Outcome A × O) → M (World O) A
  request h c q answer w = let w' = note c (requested q) w in call_back h (answer w'.outside) w'
