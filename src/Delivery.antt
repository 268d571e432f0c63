-- ===== src/Delivery.antt =====
-- The vocabulary of the statements on QoS 2 in lib/handlers/publish.js: what the trace of a client
-- says was given to the message queue, and what is assumed of the code outside.
pub mod Rules
use aedes.Common.{ℕ, suc, ◌≡◌, ◌≢◌, Bool, true, false, List, [], ◌∷◌, Option, none, some, Text}
use aedes.Run.{done, fail, silent}
use aedes.Packet.{Packet}
use aedes.World.{World, Host, Effect, requested, asks_mq_emit}

-- How many packets the tasks of a client gave to the message queue.
abbrev pub emissions : List Effect → ℕ
emissions [] = 0
emissions (requested (asks_mq_emit p) ∷ es) = suc (emissions es)
emissions (_ ∷ es) = emissions es

-- The effect gives no packet to the message queue.
abbrev pub IsNoEmission : Effect → Type 0
IsNoEmission e = (es : List Effect) → emissions (e ∷ es) ≡ emissions es

-- The store of incoming packets, as aedes-persistence documents it: a packet that was stored for a
-- client is found by its message id until it is deleted, which none of these calls does, nor any
-- other task. And the hook `authorizePublish` leaves the QoS and the message id of a packet.
pub record KeepsIncoming {O : Type 0} (h : Host O) (stored : Option Text → Option ℕ → O → Type 0)
    (id : Option Text) (m : Option ℕ) : Type 0 where
  pub finds :
      (p : Packet) (o : O)
      → p.message_id ≡ m
      → stored id m o
      → (e : aedes.Errors.Error) → (h.incoming_get id p o).0 ≢ fail e
  pub stores :
      (p : Packet) (o : O)
      → p.message_id ≡ m
      → (h.incoming_store id p o).0 ≡ done tt
      → stored id m (h.incoming_store id p o).1
  pub authorizes :
      (c : Option ℕ) (p q : Packet) (o : O)
      → (h.authorize_publish c p o).0 ≡ done q
      → (q.qos ≡ p.qos) × (q.message_id ≡ p.message_id)
  pub keep_meanwhile : (w : World O) → stored id m w.outside → stored id m (h.meanwhile w).outside
  pub keep_write :
      (c : ℕ) (p : Packet) (o : O) → stored id m o → stored id m (h.write_to_stream c p o).1
  pub keep_drained : (c : ℕ) (o : O) → stored id m o → stored id m (h.drained c o).1
  pub keep_authorize :
      (c : Option ℕ) (p : Packet) (o : O)
      → stored id m o
      → stored id m (h.authorize_publish c p o).1
  pub keep_published : (p : Packet) (o : O) → stored id m o → stored id m (h.published p o).1
  pub keep_get : (p : Packet) (o : O) → stored id m o → stored id m (h.incoming_get id p o).1
  pub keep_store : (p : Packet) (o : O) → stored id m o → stored id m (h.incoming_store id p o).1
  pub keep_retained : (p : Packet) (o : O) → stored id m o → stored id m (h.store_retained p o).1
  pub keep_by_topic :
      (t : Text) (o : O) → stored id m o → stored id m (h.subscriptions_by_topic t o).1
  pub keep_enqueue :
      (ts : List Text) (p : Packet) (o : O) → stored id m o → stored id m (h.enqueue_combi ts p o).1
  pub keep_emit : (p : Packet) (o : O) → stored id m o → stored id m (h.mq_emit p o).1

-- A persistence, a broker and a hook that serve QoS 2 with a message id: a packet is found exactly
-- if it is stored, it can be stored and deleted, and only the client's own calls store it; the hook
-- lets packets through with their topic, and a packet can be retained and kept for clients that are
-- away. Other tasks leave the limit on topic levels.
pub record Serves {O : Type 0} (h : Host O) (stored : Option Text → Option ℕ → O → Type 0)
    (id : Option Text) (m : Option ℕ) : Type 0 where
  pub gives :
      (p : Packet) (o : O)
      → p.message_id ≡ m
      → stored id m o
      → (q : Packet) × ((h.incoming_get id p o).0 ≡ done (some q))
  pub misses :
      (p : Packet) (o : O)
      → p.message_id ≡ m
      → (¬ stored id m o)
      → (e : aedes.Errors.Error) × ((h.incoming_get id p o).0 ≡ fail e)
  pub answers_get : (p : Packet) (o : O) → (h.incoming_get id p o).0 ≢ silent
  pub takes : (p : Packet) (o : O) → p.message_id ≡ m → (h.incoming_store id p o).0 ≡ done tt
  pub deletes : (p : Packet) (o : O) → p.message_id ≡ m → ¬ stored id m (h.incoming_del id p o).1
  pub answers_del : (p : Packet) (o : O) → (h.incoming_del id p o).0 ≢ silent
  pub lets :
      (c : Option ℕ) (p : Packet) (o : O)
      → (q : Packet) × ((h.authorize_publish c p o).0 ≡ done q) × (q.topic ≡ p.topic)
  pub retains : (p : Packet) (o : O) → (h.store_retained p o).0 ≡ done tt
  pub lists : (t : Text) (o : O) → (ts : List Text) × ((h.subscriptions_by_topic t o).0 ≡ done ts)
  pub enqueues : (ts : List Text) (p : Packet) (o : O) → (h.enqueue_combi ts p o).0 ≡ done tt
  pub new_meanwhile : (w : World O) → stored id m (h.meanwhile w).outside → stored id m w.outside
  pub new_write :
      (c : ℕ) (p : Packet) (o : O) → stored id m (h.write_to_stream c p o).1 → stored id m o
  pub new_drained : (c : ℕ) (o : O) → stored id m (h.drained c o).1 → stored id m o
  pub new_authorize :
      (c : Option ℕ) (p : Packet) (o : O)
      → stored id m (h.authorize_publish c p o).1
      → stored id m o
  pub new_get : (p : Packet) (o : O) → stored id m (h.incoming_get id p o).1 → stored id m o
  pub same_limit :
      (w : World O) → (h.meanwhile w).broker.max_topic_levels ≡ w.broker.max_topic_levels

-- Other tasks leave a client's object to the tasks of this client.
abbrev pub IsSteady : {O : Type 0} → Host O → ℕ → Type 0
IsSteady {O} h c = (w : World O) → (h.meanwhile w).clients c ≡ w.clients c
