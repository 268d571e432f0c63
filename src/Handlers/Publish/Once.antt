-- ===== src/Handlers/Publish/Once.antt =====
-- A PUBLISH of QoS 2 that is sent again and again (lib/handlers/publish.js).
use mathlib.Core.Path.{subst}
use aedes.Common.{
  ℕ, suc, ◌+◌, ◌≤◌, ◌≡◌, refl, sym, ap, ◌∙◌, ◌⊎◌, inl, inr, ◌==◌, Bool, true, false, List, [], ◌∷◌,
  Option, some, Text, arith, All,
}
use aedes.Run.{Outcome, done, fail, pure, continue_with, run_series}
use aedes.Packet.{Packet}
use aedes.World.{World, Host, asks_incoming_get, asks_incoming_store, requested}
use aedes.World.Steps.{note, request}
use aedes.Write.Laws.{write-At}
use aedes.Delivery.{KeepsIncoming, IsSteady, emissions}
use aedes.Delivery.Rules.{At, note-At, bind-At, settle-At, meanwhile-At, request-At}
use aedes.Broker.Publishing.{publish}
use aedes.Broker.Publishing.Emission.{publish-At}
use aedes.Handlers.Publish.Cases.{handle_publish_cases}
use aedes.Handlers.Publish.{
  pub_rec, authorize_publish, publish_new, publish_qos2, enqueue_publish, publish_actions,
  handle_publish,
}

-- A client sends packets one after the other, each of them handled to its end.
unfoldable pub handle_all : {O : Type 0} → Host O → ℕ → List Packet → World O → World O
handle_all h c [] w = w
handle_all h c (p ∷ ps) w = handle_all h c ps (handle_publish h c p w).1

module _ {O : Type 0} (c : ℕ) (stored : Option Text → Option ℕ → O → Type 0) (id : Option Text)
    (m : Option ℕ) (j : ℕ) (h : Host O) (laws : KeepsIncoming h stored id m)
    (steady : IsSteady h c) where
  abbrev pub Is : ℕ → Bool → World O → Type 0
  Is k b w = At c stored id m j k b w

  -- At most `k` packets were given to the message queue; or one more was, and the packet is stored.
  abbrev pub OnceMore : ℕ → World O → Type 0
  OnceMore k w = Is k false w ⊎ Is (suc k) true w

  drop_result :
      {A B : Type 0} (P : World O → Type 0) (x : B) (r : Outcome A × World O)
      → P r.1
      → P (continue_with (λ _. pure x) r).1
  drop_result P x r a = bind-At c stored id m j P P (λ _. pure x) r a (λ w q. q) (λ _ w e q. q)

  -- Once the store has taken the packet it is there when the answer comes.
  pub store-At :
      (k : ℕ) (p : Packet) (w : World O) (w' : World O)
      → p.message_id ≡ m
      → Is k false w
      → request h (some c) (asks_incoming_store p) (h.incoming_store (w.clients c).id p) w
        ≡ (done tt, w')
      → Is k true w'
  store-At k p w w' same a e =
      let w1 = note (some c) (requested (asks_incoming_store p)) w in
      let a1 = note-At c stored id m j (requested (asks_incoming_store p)) w (λ es. refl) a in
      let answered : (h.incoming_store id p w.outside).0 ≡ done tt =
        subst (λ i. (h.incoming_store i p w.outside).0 ≡ done tt) a.owner (ap (λ r. r.0) e) in
      let found : stored id m (h.incoming_store (w.clients c).id p w.outside).1 =
        subst (λ i. stored id m (h.incoming_store i p w.outside).1) (sym a.owner)
          (laws.stores p w.outside same answered) in
      subst (Is k true) (ap (λ r. r.1) e) (
        meanwhile-At c stored id m j h laws steady
          (record w1 { outside = (h.incoming_store (w.clients c).id p w.outside).1 })
          (record { owner = a1.owner; least = a1.least; few = a1.few; kept = λ _. found }))

  publish_new-OnceMore :
      (k : ℕ) (p : Packet) (w : World O)
      → p.message_id ≡ m
      → Is k false w
      → OnceMore k (publish_new h c p w).1
  unfolding publish_new
  publish_new-OnceMore k p w same a =
      bind-At c stored id m j (Is k false) (OnceMore k) _
        (request h (some c) (asks_incoming_store p) (h.incoming_store (w.clients c).id p) w)
        (request-At c stored id m j h laws steady _ (h.incoming_store (w.clients c).id p) w
          (λ es. refl)
          (λ st.
            subst (λ i. stored id m (h.incoming_store i p w.outside).1) (sym a.owner)
              (laws.keep_store p w.outside st))
          a)
        (λ w' q. inl q)
        (λ _ w' e q.
          bind-At c stored id m j (Is (suc k) true) (OnceMore k) _ (publish h (some c) p w')
            (publish-At c stored id m j h laws steady k true p w' (store-At k p w w' same a e))
            (λ w'' q'. inr q')
            (λ _ w'' e' q'. inr (write-At c stored id m j h laws steady (pub_rec p) w'' q')))

  pub get-At :
      (k : ℕ) (b : Bool) (p : Packet) (w : World O)
      → Is k b w
      → Is k b (request h (some c) (asks_incoming_get p) (h.incoming_get (w.clients c).id p) w).1
  get-At k b p w a =
      request-At c stored id m j h laws steady _ (h.incoming_get (w.clients c).id p) w (λ es. refl)
        (λ st.
          subst (λ i. stored id m (h.incoming_get i p w.outside).1) (sym a.owner)
            (laws.keep_get p w.outside st))
        a

  -- A packet that is not known to be stored.
  publish_qos2-OnceMore :
      (k : ℕ) (p : Packet) (w : World O)
      → p.message_id ≡ m
      → Is k false w
      → OnceMore k (publish_qos2 h c p w).1
  unfolding publish_qos2
  publish_qos2-OnceMore k p w same a =
      settle-At c stored id m j (Is k false) (OnceMore k) _ _
        (request h (some c) (asks_incoming_get p) (h.incoming_get (w.clients c).id p) w)
        (get-At k false p w a) (λ w' q. inl q)
        (λ _ w' e q. inl (write-At c stored id m j h laws steady (pub_rec p) w' q))
        (λ _ w' e q. publish_new-OnceMore k p w' same q)

  -- A packet that is stored is acknowledged and not published.
  publish_qos2-At :
      (k : ℕ) (p : Packet) (w : World O)
      → p.message_id ≡ m
      → Is k true w
      → Is k true (publish_qos2 h c p w).1
  unfolding publish_qos2
  publish_qos2-At k p w same a =
      settle-At c stored id m j (Is k true) (Is k true) _ _
        (request h (some c) (asks_incoming_get p) (h.incoming_get (w.clients c).id p) w)
        (get-At k true p w a) (λ w' q. q)
        (λ _ w' e q. write-At c stored id m j h laws steady (pub_rec p) w' q)
        (λ err w' e q. absurd (
          laws.finds p w.outside same (a.kept refl) err
            (subst (λ i. (h.incoming_get i p w.outside).0 ≡ fail err) a.owner (ap (λ r. r.0) e))))

  publish_qos2_again :
      (k : ℕ) (p : Packet) (w : World O)
      → p.message_id ≡ m
      → OnceMore k w
      → OnceMore k (publish_qos2 h c p w).1
  publish_qos2_again k p w same (inl a) = publish_qos2-OnceMore k p w same a
  publish_qos2_again k p w same (inr a) = inr (publish_qos2-At (suc k) p w same a)

  -- A step that keeps `Is` at every count keeps `OnceMore`.
  lift_step :
      (k : ℕ) (w w' : World O)
      → ((l : ℕ) (b : Bool) → Is l b w → Is l b w')
      → OnceMore k w
      → OnceMore k w'
  lift_step k w w' keep (inl a) = inl (keep k false a)
  lift_step k w w' keep (inr a) = inr (keep (suc k) true a)

  authorize-OnceMore :
      (k : ℕ) (p : Packet) (w : World O) → OnceMore k w → OnceMore k (authorize_publish h c p w).1
  unfolding authorize_publish
  authorize-OnceMore k p w = lift_step k w (authorize_publish h c p w).1 λ l b a.
      request-At c stored id m j h laws steady _ (h.authorize_publish (some c) p) w (λ es. refl)
        (laws.keep_authorize (some c) p w.outside) a

  authorize-same :
      (p q : Packet) (w w' : World O)
      → authorize_publish h c p w ≡ (done q, w')
      → (q.qos ≡ p.qos) × (q.message_id ≡ p.message_id)
  unfolding authorize_publish
  authorize-same p q w w' e = laws.authorizes (some c) p q w.outside (ap (λ r. r.0) e)

  pub enqueue-qos2 :
      (p : Packet) (w : World O)
      → (p.qos == 2) ≡ true
      → enqueue_publish h c p w ≡ continue_with (λ _. pure p) (publish_qos2 h c p w)
  unfolding enqueue_publish
  enqueue-qos2 p w two = simp two

  enqueue-OnceMore :
      (k : ℕ) (p : Packet) (w : World O)
      → p.qos ≡ 2
      → p.message_id ≡ m
      → OnceMore k w
      → OnceMore k (enqueue_publish h c p w).1
  enqueue-OnceMore k p w two same a =
      rw (enqueue-qos2 p w (ground arith))
        (drop_result (OnceMore k) p (publish_qos2 h c p w) (publish_qos2_again k p w same a))

  actions-OnceMore :
      (k : ℕ) (p : Packet) (w : World O)
      → p.qos ≡ 2
      → p.message_id ≡ m
      → OnceMore k w
      → OnceMore k (run_series (publish_actions h c) p w).1
  unfolding publish_actions run_series
  actions-OnceMore k p w two same a =
      bind-At c stored id m j (OnceMore k) (OnceMore k) _ (authorize_publish h c p w)
        (authorize-OnceMore k p w a) (λ w' q. q)
        (λ p' w' e q.
          let (qos', id') = authorize-same p p' w w' e in
          bind-At c stored id m j (OnceMore k) (OnceMore k) _ (enqueue_publish h c p' w')
            (enqueue-OnceMore k p' w' (qos' ∙ two) (id' ∙ same) q) (λ w'' r. r) (λ p'' w'' e' r. r))

  handle_publish-OnceMore :
      (k : ℕ) (p : Packet) (w : World O)
      → p.qos ≡ 2
      → p.message_id ≡ m
      → OnceMore k w
      → OnceMore k (handle_publish h c p w).1
  handle_publish-OnceMore k p w two same a =
      handle_publish_cases h c (λ r. OnceMore k r.1) p w (λ e. a)
        (drop_result (OnceMore k) tt (run_series (publish_actions h c) p w)
          (actions-OnceMore k p w two same a))

  pub handle_all-OnceMore :
      (k : ℕ) (ps : List Packet) (w : World O)
      → All (λ p. (p.qos ≡ 2) × (p.message_id ≡ m)) ps
      → OnceMore k w
      → OnceMore k (handle_all h c ps w)
  unfolding handle_all
  handle_all-OnceMore k [] w all a = a
  handle_all-OnceMore k (p ∷ ps) w (this, all) a =
      handle_all-OnceMore k ps (handle_publish h c p w).1 all
        (handle_publish-OnceMore k p w this.0 this.1 a)

module _ {O : Type 0} (c : ℕ) (stored : Option Text → Option ℕ → O → Type 0) (id : Option Text)
    (m : Option ℕ) (h : Host O) (laws : KeepsIncoming h stored id m) (steady : IsSteady h c) where
  -- However often a client sends a packet of QoS 2 with one message id, and whatever the hooks, the
  -- socket, the message queue and the persistence answer, they being as `KeepsIncoming` and
  -- `IsSteady` say: the message queue is given one packet at most.
  pub handle_all-once :
      (ps : List Packet) (w : World O)
      → All (λ p. (p.qos ≡ 2) × (p.message_id ≡ m)) ps
      → (w.clients c).id ≡ id
      → emissions ((handle_all h c ps w).clients c).trace ≤ emissions (w.clients c).trace + 1
  handle_all-once ps w all owner = few (
      handle_all-OnceMore c stored id m 0 h laws steady (emissions (w.clients c).trace) ps w all
        (inl (record { owner = owner; least = omega arith; few = omega arith; kept = λ e. cc })))
    where
      few :
          OnceMore c stored id m 0 h laws steady
            (emissions (w.clients c).trace)
            (handle_all h c ps w)
          → emissions ((handle_all h c ps w).clients c).trace ≤ emissions (w.clients c).trace + 1
      few (inl a) = omega arith
      few (inr a) = omega arith
