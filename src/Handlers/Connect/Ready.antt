-- ===== src/Handlers/Connect/Ready.antt =====
-- A client whose CONNECT is being handled, and the elementary steps that keep it so
-- (lib/handlers/connect.js).
use mathlib.Core.Path.{subst}
use aedes.Common.{ℕ, ◌≡◌, ◌≢◌, sym, ap, ◌∙◌, true, false, [], ◌∷◌, Option, none, some, Text}
use aedes.Run.{Outcome, done, fail, silent, M, continue_with}
use aedes.Dict.{Dict}
use aedes.Packet.{Packet}
use aedes.World.{
  Client, World, Host, Request, Event, requested, Written, taken, wrote, asks_authenticate,
  asks_clean_subscriptions, asks_del_will, asks_outgoing_stream, asks_pre_connect,
  connack_sent_event,
}
use aedes.World.Steps.{set_client, note, request}
use aedes.World.Heap.{update_self}
use aedes.Handlers.Connect.{ConnectArg}

-- The hooks let the client in, the persistence answers and has nothing for the client, the socket
-- takes what is written, and the tasks that run between a call and its callback change nothing but
-- what is outside.
pub record IsWelcoming {O : Type 0} (h : Host O) (c : ℕ) (p : Packet) : Type 0 where
  pub pre_connects : (o : O) → (h.pre_connect c p o).0 ≡ done true
  pub authenticates : (o : O) → (h.authenticate c p.username p.password o).0 ≡ done true
  pub cleans : (id : Option Text) (o : O) → (h.clean_subscriptions id o).0 ≡ done tt
  pub deletes_will : (id : Option Text) (o : O) → (h.del_will id o).0 ≢ silent
  pub takes : (q : Packet) (o : O) → (h.write_to_stream c q o).0 ≡ taken
  pub has_nothing : (id : Option Text) (o : O) → (h.outgoing_stream id o).0 ≡ done []
  pub same_clients : (w : World O) → (h.meanwhile w).clients ≡ w.clients
  pub same_broker : (w : World O) → (h.meanwhile w).broker ≡ w.broker

-- The `arg` with which the series begins, and, for a clean session, ends.
abbrev pub start : ConnectArg
start = record { return_code = 0; session_present = false; subs = none }

-- A client whose CONNECT is being handled.
pub record IsReady (id : Text) (v : Client) : Type 0 where
  pub is_connecting : v.connecting ≡ true
  pub named : v.id ≡ some id
  pub no_will : v.pending_will ≡ none

module _ {O : Type 0} (h : Host O) (c : ℕ) (p : Packet) (welcome : IsWelcoming h c p)
    (id : Text) where
  pub record Ready (d : Dict ℕ) (w : World O) : Type 0 where
    pub client : IsReady id (w.clients c)
    pub dict : w.broker.clients ≡ d

  -- The step ends with this value, and leaves the client ready.
  abbrev pub Goes : {A : Type 0} → A → Dict ℕ → Outcome A × World O → Type 0
  Goes a d r = (r.0 ≡ done a) × Ready d r.1

  pub bind-Goes :
      {A B : Type 0} (f : A → M (World O) B) (a : A) (b : B) (d d' : Dict ℕ)
      (r : Outcome A × World O)
      → Goes a d r
      → ((w : World O) → Ready d w → Goes b d' (f a w))
      → Goes b d' (continue_with f r)
  bind-Goes f a b d d' (done a', w) g go =
      let same : a' ≡ a = cc (g.0) in subst (λ x. Goes b d' (f x w)) (sym same) (go w g.1)
  bind-Goes f a b d d' (fail e, w) g go = absurd (cc (g.0))
  bind-Goes f a b d d' (silent, w) g go = absurd (cc (g.0))

  pub set_client-Ready :
      (d : Dict ℕ) (v : Client) (w : World O)
      → IsReady id v
      → w.broker.clients ≡ d
      → Ready d (set_client c v w)
  set_client-Ready d v w ready e = record {
    client = subst (IsReady id) (sym (update_self w.clients c v)) ready;
    dict = e;
  }

  pub note-Ready :
      (d : Dict ℕ) (e : aedes.World.Effect) (w : World O) → Ready d w → Ready d (note (some c) e w)
  note-Ready d e w r =
      set_client-Ready d (record (w.clients c) { trace = e ∷ (w.clients c).trace }) w
        (record {
          is_connecting = r.client.is_connecting;
          named = r.client.named;
          no_will = r.client.no_will;
        })
        r.dict

  pub meanwhile-Ready : (d : Dict ℕ) (w : World O) → Ready d w → Ready d (h.meanwhile w)
  meanwhile-Ready d w r = record {
    client = subst (λ heap. IsReady id (heap c)) (sym (welcome.same_clients w)) r.client;
    dict = ap (λ b. b.clients) (welcome.same_broker w) ∙ r.dict;
  }

  pub request-Ready :
      {A : Type 0} (d : Dict ℕ) (q : Request) (answer : O → Outcome A × O) (w : World O)
      → Ready d w
      → Ready d (request h (some c) q answer w).1
  request-Ready d q answer w r =
      let w' = note (some c) (requested q) w in
      let noted = note-Ready d (requested q) w r in
      meanwhile-Ready d (record w' { outside = (answer w'.outside).1 })
        (record { client = noted.client; dict = noted.dict })
