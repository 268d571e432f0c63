-- ===== src/World/Ends.antt =====
-- How a handler ends, and what it keeps: the rules by which both are shown of each handler in turn.
use aedes.Common.{ℕ, ◌≤◌, ◌<◌, ◌≡◌, refl, List, [], ◌∷◌, Option, Text}
use aedes.Errors.{Error}
use aedes.Run.{Outcome, done, fail, silent, M, pure, throw, continue_with, settle_with, run_series}
use aedes.Packet.{Packet, Sub}
use aedes.World.{Client, World, Host, Func, Effect, Request, requested}
use aedes.World.Steps.{set_client, note, request, call_back}

-- The calls of the code outside end. `S` is what follows if one does not: with no proof of `S` all
-- of them end, and with `Unit` nothing is said. The persistence lists the subscriptions of a topic,
-- since `publish` never ends where that fails; and the hook `authorizePublish` gives a packet no QoS
-- that there is not.
pub record Speaks {O : Type 0} (h : Host O) (S : Type 0) : Type 0 where
  pub drained : (c : ℕ) (o : O) → (h.drained c o).0 ≡ silent → S
  pub authorize_publish :
      (c : Option ℕ) (p : Packet) (o : O) → (h.authorize_publish c p o).0 ≡ silent → S
  pub authorize_qos :
      (c : Option ℕ) (p q : Packet) (o : O)
      → (h.authorize_publish c p o).0 ≡ done q
      → p.qos ≤ 2
      → 2 < q.qos
      → S
  pub authorize_subscribe : (c : ℕ) (s : Sub) (o : O) → (h.authorize_subscribe c s o).0 ≡ silent → S
  pub published : (p : Packet) (o : O) → (h.published p o).0 ≡ silent → S
  pub incoming_get :
      (id : Option Text) (p : Packet) (o : O) → (h.incoming_get id p o).0 ≡ silent → S
  pub incoming_store :
      (id : Option Text) (p : Packet) (o : O) → (h.incoming_store id p o).0 ≡ silent → S
  pub incoming_del :
      (id : Option Text) (p : Packet) (o : O) → (h.incoming_del id p o).0 ≡ silent → S
  pub outgoing_update :
      (id : Option Text) (p : Packet) (o : O) → (h.outgoing_update id p o).0 ≡ silent → S
  pub outgoing_clear :
      (id : Option Text) (p : Packet) (o : O) → (h.outgoing_clear id p o).0 ≡ silent → S
  pub store_retained : (p : Packet) (o : O) → (h.store_retained p o).0 ≡ silent → S
  pub by_topic : (t : Text) (o : O) → (h.subscriptions_by_topic t o).0 ≡ silent → S
  pub by_topic_lists :
      (t : Text) (e : Error) (o : O) → (h.subscriptions_by_topic t o).0 ≡ fail e → S
  pub enqueue_combi :
      (ts : List Text) (p : Packet) (o : O) → (h.enqueue_combi ts p o).0 ≡ silent → S
  pub add_subscriptions :
      (id : Option Text) (subs : List Sub) (o : O) → (h.add_subscriptions id subs o).0 ≡ silent → S
  pub remove_subscriptions :
      (id : Option Text) (ts : List Text) (o : O) → (h.remove_subscriptions id ts o).0 ≡ silent → S
  pub mq_emit : (p : Packet) (o : O) → (h.mq_emit p o).0 ≡ silent → S
  pub mq_on : (c : ℕ) (t : Text) (f : Func) (o : O) → (h.mq_on c t f o).0 ≡ silent → S
  pub mq_remove :
      (c : ℕ) (t : Text) (f : Option Func) (o : O) → (h.mq_remove c t f o).0 ≡ silent → S

-- With no claim about calls that do not come back.
pub speaks_of_nothing : {O : Type 0} (h : Host O) → Speaks h (Unit {0})
speaks_of_nothing h = record {
  drained = λ c o e. tt;
  authorize_publish = λ c p o e. tt;
  authorize_qos = λ c p q o e a b. tt;
  authorize_subscribe = λ c s o e. tt;
  published = λ p o e. tt;
  incoming_get = λ id p o e. tt;
  incoming_store = λ id p o e. tt;
  incoming_del = λ id p o e. tt;
  outgoing_update = λ id p o e. tt;
  outgoing_clear = λ id p o e. tt;
  store_retained = λ p o e. tt;
  by_topic = λ t o e. tt;
  by_topic_lists = λ t e o f. tt;
  enqueue_combi = λ ts p o e. tt;
  add_subscriptions = λ id subs o e. tt;
  remove_subscriptions = λ id ts o e. tt;
  mq_emit = λ p o e. tt;
  mq_on = λ c t f o e. tt;
  mq_remove = λ c t f o e. tt;
}

-- A predicate that a call of the code outside on behalf of `client` keeps.
pub record Calm {O : Type 0} (h : Host O) (client : Option ℕ) (P : World O → Type 0) : Type 0 where
  pub noted : (e : Effect) (w : World O) → P w → P (note client e w)
  pub answered : (o : O) (w : World O) → P w → P (h.meanwhile (record w { outside = o }))
  pub counted :
      (n : ℕ) (w : World O) → P w → P (record w { broker = record (w.broker) { counter = n } })

-- A predicate that no elementary step changes but the closing of a client or of the broker.
pub record Stable {O : Type 0} (h : Host O) (P : World O → Type 0) : Type 0 where
  pub noted : (c : Option ℕ) (e : Effect) (w : World O) → P w → P (note c e w)
  pub answered : (o : O) (w : World O) → P w → P (h.meanwhile (record w { outside = o }))
  pub written : (o : O) (w : World O) → P w → P (record w { outside = o })
  pub counted :
      (n : ℕ) (w : World O) → P w → P (record w { broker = record (w.broker) { counter = n } })
  pub set :
      (c : ℕ) (client : Client) (w : World O)
      → client.closed ≡ (w.clients c).closed
      → P w
      → P (set_client c client w)
  pub numbered : (n : ℕ) (w : World O) → P w → P (record w { next_callback = n })

pub Stable-Calm :
    {O : Type 0} {h : Host O} {P : World O → Type 0}
    → Stable h P
    → (client : Option ℕ) → Calm h client P
Stable-Calm stable client = record {
  noted = stable.noted client;
  answered = stable.answered;
  counted = stable.counted;
}

-- `P` holds at the end; and if the callback is never called, then `S`.
abbrev pub Ends : {T A : Type 0} → Type 0 → (T → Type 0) → Outcome A × T → Type 0
Ends S P r = P r.1 × (r.0 ≡ silent → S)

module _ {T : Type 0} (S : Type 0) (P : T → Type 0) where
  pub pure-Ends : {A : Type 0} (a : A) (s : T) → P s → Ends S P (pure a s)
  pure-Ends a s q = (q, λ e. cc)

  pub throw-Ends : {A : Type 0} (e : Error) (s : T) → P s → Ends S P (throw {A = A} e s)
  throw-Ends e s q = (q, λ e'. cc)

  pub bind-Ends :
      {A B : Type 0} (f : A → M T B) (r : Outcome A × T)
      → Ends S P r
      → ((a : A) (s : T) → r.0 ≡ done a → P s → Ends S P (f a s))
      → Ends S P (continue_with f r)
  bind-Ends f (done a, s) (q, ends) go = go a s refl q
  bind-Ends f (fail e, s) (q, ends) go = (q, λ e'. cc)
  bind-Ends f (silent, s) (q, ends) go = (q, λ e'. ends refl)

  -- Of the last part only whether it ends.
  pub bind_ends :
      {A B : Type 0} (f : A → M T B) (r : Outcome A × T)
      → Ends S P r
      → ((a : A) (s : T) → P s → (f a s).0 ≡ silent → S)
      → (continue_with f r).0 ≡ silent
      → S
  bind_ends f (done a, s) (q, ends) go = go a s q
  bind_ends f (fail e, s) (q, ends) go = λ e'. cc
  bind_ends f (silent, s) (q, ends) go = λ e'. ends refl

  pub settle-Ends :
      {A B : Type 0} (f : A → M T B) (g : Error → M T B) (r : Outcome A × T)
      → Ends S P r
      → ((a : A) (s : T) → P s → Ends S P (f a s))
      → ((e : Error) (s : T) → r.0 ≡ fail e → P s → Ends S P (g e s))
      → Ends S P (settle_with f g r)
  settle-Ends f g (done a, s) (q, ends) go err = go a s q
  settle-Ends f g (fail e, s) (q, ends) go err = err e s refl q
  settle-Ends f g (silent, s) (q, ends) go err = (q, λ e'. ends refl)

  -- The result does not matter.
  pub drop-Ends :
      {A B : Type 0} (b : B) (r : Outcome A × T)
      → Ends S P r
      → Ends S P (continue_with (λ _. pure b) r)
  drop-Ends b r q = bind-Ends (λ _. pure b) r q (λ _ s e q'. pure-Ends b s q')

  -- Each action of a series.
  abbrev pub AllEnd : {A : Type 0} → List (A → M T A) → Type 0
  AllEnd [] = Unit
  AllEnd {A} (f ∷ fs) = ((a : A) (s : T) → P s → Ends S P (f a s)) × AllEnd fs

  pub run_series-Ends :
      {A : Type 0} (fs : List (A → M T A)) (a : A) (s : T)
      → AllEnd fs
      → P s
      → Ends S P (run_series fs a s)
  unfolding run_series
  run_series-Ends [] a s all q = pure-Ends a s q
  run_series-Ends (f ∷ fs) a s (this, all) q =
      bind-Ends (run_series fs) (f a s) (this a s q) (λ a' s' e q'. run_series-Ends fs a' s' all q')

module _ {O : Type 0} (h : Host O) (S : Type 0) (P : World O → Type 0) {c : Option ℕ}
    (calm : Calm h c P) where
  pub call_back-Ends :
      {A : Type 0} (r : Outcome A × O) (w : World O)
      → (r.0 ≡ silent → S)
      → P w
      → Ends S P (call_back h r w)
  call_back-Ends r w ends q = (calm.answered r.1 w q, ends)

  pub request-Ends :
      {A : Type 0} (q : Request) (answer : O → Outcome A × O) (w : World O)
      → ((o : O) → (answer o).0 ≡ silent → S)
      → P w
      → Ends S P (request h c q answer w)
  request-Ends q answer w ends p =
      let w' = note c (requested q) w in
      call_back-Ends (answer w'.outside) w' (ends w'.outside) (calm.noted (requested q) w p)
