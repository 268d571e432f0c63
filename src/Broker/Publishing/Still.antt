-- ===== src/Broker/Publishing/Still.antt =====
-- `publish` of aedes.js and the registry, while no other task changes that.
use mathlib.Core.Path.{subst}
use aedes.Common.{ℕ, ◌≡◌, refl, sym, ◌∙◌, Option, none, some, inl, inr, ◌==◌, ==_iff, Bool-cases}
use aedes.Dict.{Dict}
use aedes.Packet.{Packet}
use aedes.World.{Client, World, Host}
use aedes.World.Ends.{Calm, speaks_of_nothing}
use aedes.World.Heap.{update_self, update_other}
use aedes.World.Steps.{update}
use aedes.Session.Drain.Kept.{KeepsIdentity}
use aedes.Broker.Publishing.{publish}
use aedes.Broker.Publishing.Ending.{publish-Ends}

-- The clients that are registered, their count, and all Client objects.
pub record Holds {O : Type 0} (d : Dict ℕ) (n : ℕ) (heap : ℕ → Client) (w : World O) : Type 0 where
  pub registered : w.broker.clients ≡ d
  pub counted : w.broker.connected_clients ≡ n
  pub objects : w.clients ≡ heap

-- The clients that are registered, and who each Client object is.
pub record Stands {O : Type 0} (d : Dict ℕ) (heap : ℕ → Client) (w : World O) : Type 0 where
  pub stands : w.broker.clients ≡ d
  pub same : (i : ℕ) → KeepsIdentity (heap i) (w.clients i)

pub Stands-refl : {O : Type 0} (w : World O) → Stands w.broker.clients w.clients w
Stands-refl w = record {
  stands = refl;
  same = λ i. record { same_id = refl; same_authorized = refl };
}

-- The tasks that run between a call and its callback register no client and change no Client
-- object.
pub record IsStill {O : Type 0} (h : Host O) : Type 0 where
  pub still_registered : (w : World O) → (h.meanwhile w).broker.clients ≡ w.broker.clients
  pub still_counted :
      (w : World O) → (h.meanwhile w).broker.connected_clients ≡ w.broker.connected_clients
  pub still_objects : (w : World O) → (h.meanwhile w).clients ≡ w.clients

-- A write that does not change who the client is.
update-KeepsIdentity :
    (before heap : ℕ → Client) (c : ℕ) (v : Client) (i : ℕ)
    → ((j : ℕ) → KeepsIdentity (before j) (heap j))
    → KeepsIdentity (heap c) v
    → KeepsIdentity (before i) (update heap c v i)
update-KeepsIdentity before heap c v i same kept = elim (Bool-cases (i == c)) [
  | inl e ↦
      subst (λ (k : ℕ). KeepsIdentity (before k) (update heap c v k)) (sym ((==_iff i c).0 e))
        (subst (KeepsIdentity (before c)) (sym (update_self heap c v)) (record {
          same_id = kept.same_id ∙ (same c).same_id;
          same_authorized = kept.same_authorized ∙ (same c).same_authorized;
        }))
  | inr e ↦ subst (KeepsIdentity (before i)) (sym (update_other heap c v i e)) (same i)
]

module _ {O : Type 0} (h : Host O) (still : IsStill h) where
  Holds-Calm : (d : Dict ℕ) (n : ℕ) (heap : ℕ → Client) → Calm h none (Holds d n heap)
  Holds-Calm d n heap = record {
    noted = λ e w a. record { registered = a.registered; counted = a.counted; objects = a.objects };
    answered = λ o w a. record {
      registered = still.still_registered _ ∙ a.registered;
      counted = still.still_counted _ ∙ a.counted;
      objects = still.still_objects _ ∙ a.objects;
    };
    counted =
        λ n' w a. record { registered = a.registered; counted = a.counted; objects = a.objects };
  }

  pub publish-Holds :
      (d : Dict ℕ) (n : ℕ) (heap : ℕ → Client) (packet : Packet) (w : World O)
      → Holds d n heap w
      → Holds d n heap (publish h none packet w).1
  publish-Holds d n heap packet w a =
      (publish-Ends h (Unit {0}) (Holds d n heap) (Holds-Calm d n heap) (speaks_of_nothing h) packet
        w a).0

  Stands-meanwhile :
      (d : Dict ℕ) (heap : ℕ → Client) (o : O) (w : World O)
      → Stands d heap w
      → Stands d heap (h.meanwhile (record w { outside = o }))
  Stands-meanwhile d heap o w a = record {
    stands = still.still_registered _ ∙ a.stands;
    same = λ i.
        subst (λ (f : ℕ → Client). KeepsIdentity (heap i) (f i)) (sym (still.still_objects _))
          (a.same i);
  }

  -- Also on behalf of a client, whose trace the calls change.
  pub Stands-Calm :
      (d : Dict ℕ) (heap : ℕ → Client) (client : Option ℕ) → Calm h client (Stands d heap)
  Stands-Calm d heap none = record {
    noted = λ e w a. record { stands = a.stands; same = a.same };
    answered = Stands-meanwhile d heap;
    counted = λ n w a. record { stands = a.stands; same = a.same };
  }
  Stands-Calm d heap (some c) = record {
    noted = λ e w a. record {
      stands = a.stands;
      same = λ i.
          update-KeepsIdentity heap w.clients c _ i a.same
            (record { same_id = refl; same_authorized = refl });
    };
    answered = Stands-meanwhile d heap;
    counted = λ n w a. record { stands = a.stands; same = a.same };
  }
