-- ===== src/Delivery/Rules.antt =====
-- How the steps of World.antt and Write.antt act on what a client gave to the message queue.
use mathlib.Core.Path.{subst}
use aedes.Common.{ℕ, suc, ◌≤◌, ◌≡◌, refl, sym, Bool, true, Option, some, Text, arith}
use aedes.Errors.{Error}
use aedes.Run.{Outcome, done, fail, silent, M, continue_with, settle_with}
use aedes.Packet.{Packet}
use aedes.World.{Client, World, Host, Effect, requested, Request, asks_mq_emit}
use aedes.World.Heap.{update_self}
use aedes.World.Steps.{update, note, request, call_back}
use aedes.Delivery.{emissions, IsNoEmission, KeepsIncoming, IsSteady}

module _ {O : Type 0} (c : ℕ) (stored : Option Text → Option ℕ → O → Type 0) (id : Option Text)
    (m : Option ℕ) (j : ℕ) where
  -- The client has its id, gave `j` packets at least and `k` at most to the message queue, and the
  -- packet is in the store if `b` says so.
  pub record Sees (k : ℕ) (b : Bool) (client : Client) (o : O) : Type 0 where
    pub owner : client.id ≡ id
    pub least : j ≤ emissions client.trace
    pub few : emissions client.trace ≤ k
    pub kept : b ≡ true → stored id m o

  abbrev pub At : ℕ → Bool → World O → Type 0
  At k b w = Sees k b (w.clients c) w.outside

  pub At-mono : {k l : ℕ} {b : Bool} (w : World O) → k ≤ l → At k b w → At l b w
  At-mono w h a = record { owner = a.owner; least = omega arith; few = omega arith; kept = a.kept }

  pub set-At :
      {k : ℕ} {b : Bool} (client : Client) (w : World O)
      → Sees k b client w.outside
      → Sees k b (update w.clients c client c) w.outside
  set-At {k} {b} client w a =
      subst (λ v. Sees k b v w.outside) (sym (update_self w.clients c client)) a

  pub note-At :
      {k : ℕ} {b : Bool} (e : Effect) (w : World O)
      → IsNoEmission e
      → At k b w
      → At k b (note (some c) e w)
  note-At e w quiet a = set-At _ w (record {
    owner = a.owner;
    least = rw (quiet (w.clients c).trace) a.least;
    few = rw (quiet (w.clients c).trace) a.few;
    kept = a.kept;
  })

  pub note_emit-At :
      {k : ℕ} {b : Bool} (p : Packet) (w : World O)
      → At k b w
      → At (suc k) b (note (some c) (requested (asks_mq_emit p)) w)
  note_emit-At p w a =
      set-At _ w (record { owner = a.owner; least = omega arith; few = omega arith; kept = a.kept })

  pub outside-At :
      {k : ℕ} {b : Bool} {client : Client} {o o' : O}
      → (stored id m o → stored id m o')
      → Sees k b client o
      → Sees k b client o'
  outside-At keep a = record {
    owner = a.owner;
    least = a.least;
    few = a.few;
    kept = λ e. keep (a.kept e);
  }

  -- What holds after both the outcomes that go on and those that do not.
  pub bind-At :
      {A B : Type 0} (Q R : World O → Type 0) (f : A → M (World O) B) (r : Outcome A × World O)
      → Q r.1
      → ((w : World O) → Q w → R w)
      → ((a : A) (w : World O) → r ≡ (done a, w) → Q w → R (f a w).1)
      → R (continue_with f r).1
  bind-At Q R f (done a, w) q weaken go = go a w refl q
  bind-At Q R f (fail e, w) q weaken go = weaken w q
  bind-At Q R f (silent, w) q weaken go = weaken w q

  pub settle-At :
      {A B : Type 0} (Q R : World O → Type 0) (f : A → M (World O) B) (g : Error → M (World O) B)
      (r : Outcome A × World O)
      → Q r.1
      → ((w : World O) → Q w → R w)
      → ((a : A) (w : World O) → r ≡ (done a, w) → Q w → R (f a w).1)
      → ((e : Error) (w : World O) → r ≡ (fail e, w) → Q w → R (g e w).1)
      → R (settle_with f g r).1
  settle-At Q R f g (done a, w) q weaken go err = go a w refl q
  settle-At Q R f g (fail e, w) q weaken go err = err e w refl q
  settle-At Q R f g (silent, w) q weaken go err = weaken w q

  module _ (h : Host O) (laws : KeepsIncoming h stored id m) (steady : IsSteady h c) where
    pub meanwhile-At : {k : ℕ} {b : Bool} (w : World O) → At k b w → At k b (h.meanwhile w)
    meanwhile-At {k} {b} w a =
        subst (λ v. Sees k b v (h.meanwhile w).outside) (sym (steady w))
          (outside-At (laws.keep_meanwhile w) a)

    pub call_back-At :
        {A : Type 0} {k : ℕ} {b : Bool} (w : World O) (r : Outcome A × O)
        → (stored id m w.outside → stored id m r.1)
        → At k b w
        → At k b (call_back h r w).1
    call_back-At w r keep a = meanwhile-At (record w { outside = r.1 }) (outside-At keep a)

    pub request-At :
        {A : Type 0} {k : ℕ} {b : Bool} (q : Request) (answer : O → Outcome A × O) (w : World O)
        → IsNoEmission (requested q)
        → (stored id m w.outside → stored id m (answer w.outside).1)
        → At k b w
        → At k b (request h (some c) q answer w).1
    request-At q answer w quiet keep a =
        call_back-At (note (some c) (requested q) w) (answer w.outside) keep
          (note-At (requested q) w quiet a)
