-- ===== src/Handlers/Subscribe/Interleaving/Granted.antt =====
-- The return codes of a SUBACK, whatever the order in which the topics run their actions
-- (lib/handlers/subscribe.js).
use aedes.Common.{ℕ, ◌≡◌, Bool, true, false, List, [], ◌∷◌, Option, none, some, if◌then◌else◌}
use aedes.Run.{done}
use aedes.Packet.{Sub}
use aedes.World.{World, Host}
use aedes.Handlers.Subscribe.Interleaving.{Action, Topic}

-- The hook `authorizeSubscribe` refuses these subscriptions and no others: to others it passes one on,
-- or it fails or is silent.
pub record Refuses {O : Type 0} (h : Host O) (c : ℕ) (refuses : Sub → Bool) : Type 0 where
  pub refused :
      (sub : Sub) (o : O) → (h.authorize_subscribe c sub o).0 ≡ done none → refuses sub ≡ true
  pub passed_on :
      (sub sub' : Sub) (o : O)
      → (h.authorize_subscribe c sub o).0 ≡ done (some sub')
      → refuses sub ≡ false

module _ {O : Type 0} (code : ℕ) where
  -- A topic whose actions are given `o`, when `granted` is `g`, has the code in the end.
  abbrev Yields : List (Action O) → Option Sub → ℕ → Type 0
  Yields [] o g = g ≡ code
  Yields (f ∷ fs) o g =
      (w : World O) (o' : Option Sub)
      → (f o (record { world = w; granted = g })).0 ≡ done o'
      → Yields fs o' (f o (record { world = w; granted = g })).1.granted

  abbrev Leads : Topic O → Type 0
  Leads t = (o : Option Sub) → t.passed ≡ done o → Yields t.actions o t.granted

module _ {O : Type 0} (code : Sub → ℕ) where
  abbrev AllLead : List Sub → List (Topic O) → Type 0
  AllLead [] [] = Unit
  AllLead (sub ∷ subs) (t ∷ ts) = Leads (code sub) t × AllLead subs ts
  AllLead _ _ = ⊥

module _ {O : Type 0} (h : Host O) (c : ℕ) (refuses : Sub → Bool) (hook : Refuses h c refuses) where
  -- 128 for a refused subscription, and otherwise the QoS that it asks for.
  abbrev pub code_of : Sub → ℕ
  code_of sub = if refuses sub then 128 else sub.qos

  -- What `authorize` passes on tells whether the hook refused.
  abbrev Tells : Sub → Option Sub → Type 0
  Tells sub none = refuses sub ≡ true
  Tells sub (some _) = refuses sub ≡ false
