-- ===== src/LifeCycle/Cluster/Announcements.antt =====
-- The announcement of a client, from one broker to another (`_finishRegisterClient` and
-- `closeSameClients` of aedes.js).
use mathlib.Core.Path.{subst}
use aedes.Run.{Outcome, done}
use aedes.Dict.{own, get}
use aedes.Dict.Laws.{get-remove, slot-own}
use aedes.World.Ends.{Speaks}
use aedes.World.Closed.{IsClosed}
use aedes.Handlers.Unsubscribe.Closed.{end_close-done}
use aedes.Broker.Registry.{close, delete_client, announcement}
use aedes.Broker.Registry.Closed.{close_closes}
use aedes.Common.{
  ℕ, none, true, false, sym, if_true, if_false, inl, inr, Bool-cases, text_eq, text_eq_refl, ◌≡◌,
  ◌≢◌, refl, ap, ◌∙◌, [], ◌∷◌, ◌++◌, some, Text, codes, All, arith, get_elem?,
}
use aedes.Topic.{slash}
use aedes.Topic.Levels.{split}
use aedes.World.{World, Host}
use aedes.LifeCycle.{close_same_client, close_same_clients}
use aedes.LifeCycle.Cluster.{server_of, close_same_clients_of, hear_new_client}

-- The first level of a text is what stands before its first slash.
split-slash : (a t : Text) → All (λ x. x ≢ slash) a → split (a ++ (slash ∷ t)) ≡ a ∷ split t
unfolding split
split-slash [] t free = refl
split-slash (x ∷ a) t free = ground (arith, split-slash a t free.1)

server_of-announcement :
    (server id : Text)
    → All (λ x. x ≢ slash) server
    → server_of (announcement (codes "/new/clients") server (some id)).topic ≡ some server
unfolding server_of
server_of-announcement server id free =
    ap (λ ls. get_elem? ls 1)
      (split-slash (codes "$SYS") (server ++ codes "/new/clients")
          ((λ e. cc), ((λ e. cc), ((λ e. cc), ((λ e. cc), tt))))
        ∙ ap (λ ls. codes "$SYS" ∷ ls) (split-slash server (codes "new/clients") free))

false-true : false ≢ true
false-true e = cc

module _ {O : Type 0} (h : Host O) where
  named-announcement :
      (server id : Text) (w : World O)
      → All (λ x. x ≢ slash) server
      → hear_new_client h (announcement (codes "/new/clients") server (some id)) w
        ≡ close_same_clients h server id w
  unfolding hear_new_client close_same_clients_of
  named-announcement server id w free =
      ap (λ s. close_same_clients_of h s id w) (server_of-announcement server id free)

  -- What becomes of the client that this broker has under the id: it is closed; if it was closed
  -- before, it is taken off the registry.
  abbrev Gone : Text → ℕ → World O → Outcome (Unit {0}) × World O → Type 0
  Gone id c w r =
      r.0 ≡ done tt
      × (r.1.clients c).closed ≡ true
      × ((w.clients c).closed ≡ true → get id r.1.broker.clients ≡ none)

  close_same_client-Gone :
      (id : Text) (c : ℕ) (w : World O)
      → Speaks h ⊥
      → ((v : World O) → IsClosed w.broker.closed c v → IsClosed w.broker.closed c (h.meanwhile v))
      → Gone id c w (close_same_client h id (own c) w)
  unfolding close_same_client delete_client
  close_same_client-Gone id c w speaks stays = elim (Bool-cases (w.clients c).closed) [
    | inl shut ↦
        subst (Gone id c w) (sym (if_true (w.clients c).closed _ _ shut))
          (refl, shut, λ _. get-remove id id w.broker.clients ∙ rw (text_eq_refl) refl)
    | inr open' ↦
        let w1 = close h c none w in
        let (ok, closed) =
          end_close-done h w.broker.closed c stays speaks c (h.meanwhile w1)
            (stays w1 (close_closes h w.broker.closed c w refl)) in
        subst (Gone id c w) (sym (if_false (w.clients c).closed _ _ open'))
          (ok, closed.0, λ shut. absurd (false-true (sym open' ∙ shut)))
  ]

  -- A broker gets the announcement of a client of another broker, in whose id no slash stands, and it
  -- has a client under the same client id. If every call of the code outside ends (Speaks) and no
  -- other task opens this client, or opens or closes the broker, then it calls back with no error,
  -- and this client is closed; if it was closed before, the broker has no client under the id
  -- any more.
  pub hear_new_client-announcement :
      (server id : Text) (c : ℕ) (w : World O)
      → All (λ x. x ≢ slash) server
      → text_eq server w.broker.id ≡ false
      → get id w.broker.clients ≡ some c
      → Speaks h ⊥
      → ((v : World O) → IsClosed w.broker.closed c v → IsClosed w.broker.closed c (h.meanwhile v))
      → let r = hear_new_client h (announcement (codes "/new/clients") server (some id)) w in
        r.0 ≡ done tt
        × (r.1.clients c).closed ≡ true
        × ((w.clients c).closed ≡ true → get id r.1.broker.clients ≡ none)
  unfolding close_same_clients
  hear_new_client-announcement server id c w free other found speaks stays =
      subst (Gone id c w)
        (sym (
          named-announcement server id w free
          ∙ if_false (text_eq server w.broker.id) _ _ other
          ∙ ap (λ x. close_same_client h id x w) (slot-own id c w.broker.clients found)))
        (close_same_client-Gone id c w speaks stays)
