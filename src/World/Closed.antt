-- ===== src/World/Closed.antt =====
-- Whether a client and the broker are closed.
use aedes.Common.{ℕ, ◌≡◌, refl, ◌∙◌, Bool, true, Option, none, some, arith}
use aedes.World.{Client, World, Host, Effect}
use aedes.World.Ends.{Stable}
use aedes.World.Steps.{update, set_client, note}

-- Of the client, and of the broker.
abbrev pub AreBoth : {O : Type 0} → Bool → Bool → ℕ → World O → Type 0
AreBoth a b c w = (w.clients c).closed ≡ a × w.broker.closed ≡ b

-- The client is closed, and the broker is or is not.
abbrev pub IsClosed : {O : Type 0} → Bool → ℕ → World O → Type 0
IsClosed b c w = AreBoth true b c w

update-closed :
    (heap : ℕ → Client) (c i : ℕ) (client : Client)
    → client.closed ≡ (heap i).closed
    → (update heap i client c).closed ≡ (heap c).closed
update-closed heap c i client same = ground arith

module _ {O : Type 0} (a b : Bool) (c : ℕ) where
  note-AreBoth :
      (i : Option ℕ) (e : Effect) (w : World O) → AreBoth a b c w → AreBoth a b c (note i e w)
  note-AreBoth none e w q = q
  note-AreBoth (some i) e w q = (update-closed w.clients c i _ refl ∙ q.0, q.1)

  -- That they are is changed by other tasks at most.
  pub AreBoth-Stable :
      (h : Host O)
      → ((w : World O) → AreBoth a b c w → AreBoth a b c (h.meanwhile w))
      → Stable h (AreBoth a b c)
  AreBoth-Stable h kept = record {
    noted = note-AreBoth;
    answered = λ o w q. kept (record w { outside = o }) q;
    written = λ o w q. q;
    counted = λ n w q. q;
    set = λ i client w same q. (update-closed w.clients c i client same ∙ q.0, q.1);
    numbered = λ n w q. q;
  }

  -- The closing of another client, or of this one once more.
  pub set_client-AreBoth :
      (i : ℕ) (client : Client) (w : World O)
      → client.closed ≡ a
      → AreBoth a b c w
      → AreBoth a b c (set_client i client w)
  set_client-AreBoth i client w same q = (ground arith, q.1)
