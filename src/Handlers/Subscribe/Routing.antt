-- ===== src/Handlers/Subscribe/Routing.antt =====
-- The subscriptions of a client against what the message queue listens to for it (`addSubs` of
-- lib/handlers/subscribe.js, `subscribe` and `unsubscribe` of aedes.js).
use mathlib.Core.Path.{subst}
use aedes.Common.{
  ℕ, ◌≤◌, ◌≡◌, refl, sym, ap, ◌∙◌, Bool, true, false, ◌||◌, List, [], ◌∷◌, ◌++◌, text_eq_iff,
  text_eq_refl, if_true, Option, none, some, Text, text_eq, ltb, if◌then◌else◌, if_false, if_both,
  arith,
}
use aedes.Run.{Outcome, done, fail, silent, pure, continue_with}
use aedes.Dict.{Dict, Slot, absent, builtin, own, slot, get, put}
use aedes.Dict.Laws.{get-put, get-slot_own, get-slot_absent, get-slot_builtin}
use aedes.Topic.{topic_level_count}
use aedes.Packet.{Sub}
use aedes.World.{World, Host, Func, Subscription, Request, asks_mq_on, asks_mq_remove}
use aedes.World.Steps.{request}
use aedes.Delivery.{IsSteady}
use aedes.World.Heap.{update_self}
use aedes.Handlers.Subscription.{same_subscription, subscription_of}
use aedes.Handlers.Subscribe.{
  mq_subscribe, mq_unsubscribe, set_subscription, replace_subscription, add_subscription, add_subs,
}

-- `table o` says to which functions of the client the message queue gives the packets that a topic
-- filter matches. `on` does not fail, and adds its function to those that are there; the removal of
-- the only function of a topic does not fail, and leaves none; a removal where there is none changes
-- nothing. The other calls leave the listeners of the client; the hook passes on topics of `m` levels
-- at most; and the other tasks leave the client, its listeners and the limit `m` of the broker.
pub record Routes {O : Type 0} (h : Host O) (c m : ℕ) (table : O → Text → List Func) : Type 0 where
  pub on_ends : (t : Text) (f : Func) (o : O) → (h.mq_on c t f o).0 ≡ done tt
  pub on_listens :
      (t : Text) (f : Func) (o : O) (t' : Text)
      → table (h.mq_on c t f o).1 t' ≡ (if text_eq t t' then table o t' ++ (f ∷ []) else table o t')
  pub remove_ends :
      (t : Text) (f : Func) (o : O) → table o t ≡ f ∷ [] → (h.mq_remove c t (some f) o).0 ≡ done tt
  pub remove_stops :
      (t : Text) (f : Func) (o : O)
      → table o t ≡ f ∷ []
      → (t' : Text)
      → table (h.mq_remove c t (some f) o).1 t' ≡ (if text_eq t t' then [] else table o t')
  pub remove_none :
      (t : Text) (f : Option Func) (o : O)
      → table o t ≡ []
      → (t' : Text) → table (h.mq_remove c t f o).1 t' ≡ table o t'
  pub keep_meanwhile :
      (w : World O) (t : Text) → table (h.meanwhile w).outside t ≡ table w.outside t
  pub keep_authorize :
      (sub : Sub) (o : O) (t : Text) → table (h.authorize_subscribe c sub o).1 t ≡ table o t
  pub keep_add :
      (id : Option Text) (subs : List Sub) (o : O) (t : Text)
      → table (h.add_subscriptions id subs o).1 t ≡ table o t
  pub shallow :
      (sub sub' : Sub) (o : O)
      → (h.authorize_subscribe c sub o).0 ≡ done (some sub')
      → topic_level_count (some sub'.topic) ≤ m
  pub steady : IsSteady h c
  pub same_limit :
      (w : World O) → (h.meanwhile w).broker.max_topic_levels ≡ w.broker.max_topic_levels

abbrev pub funcs_of : Option Subscription → List Func
funcs_of none = []
funcs_of (some s) = s.func ∷ []

-- Both branches may use the test.
if_cases :
    {A : Type 0} (b : Bool) (x x' y y' : A)
    → (b ≡ true → x ≡ x')
    → (b ≡ false → y ≡ y')
    → (if b then x else y) ≡ (if b then x' else y')
if_cases true x x' y y' e f = e refl
if_cases false x x' y y' e f = f refl

module _ {O : Type 0} (h : Host O) (c m : ℕ) (table : O → Text → List Func)
    (routes : Routes h c m table) where
  -- The listeners are `T`, and the subscriptions of the client are `d`.
  pub record Sets (T : Text → List Func) (d : Dict Subscription) (w : World O) : Type 0 where
    pub limit : w.broker.max_topic_levels ≡ m
    pub listeners : (t : Text) → table w.outside t ≡ T t
    pub subscriptions : (w.clients c).subscriptions ≡ d

  -- The message queue listens to the topics of the client's subscriptions with their functions, and
  -- to no other.
  pub record Agree (w : World O) : Type 0 where
    pub limit : w.broker.max_topic_levels ≡ m
    pub routed : (t : Text) → table w.outside t ≡ funcs_of (get t (w.clients c).subscriptions)

  pub Sets-Agree :
      (T : Text → List Func) (d : Dict Subscription) (w : World O)
      → Sets T d w
      → ((t : Text) → T t ≡ funcs_of (get t d))
      → Agree w
  Sets-Agree T d w s e = record {
    limit = s.limit;
    routed = λ t. s.listeners t ∙ e t ∙ ap (λ x. funcs_of (get t x)) (sym s.subscriptions);
  }

  pub Agree-Sets :
      (w : World O)
      → Agree w
      → Sets (λ t. funcs_of (get t (w.clients c).subscriptions)) (w.clients c).subscriptions w
  Agree-Sets w a = record { limit = a.limit; listeners = a.routed; subscriptions = refl }

  pub request-Sets :
      {A : Type 0} (T T' : Text → List Func) (d : Dict Subscription) (q : Request)
      (answer : O → Outcome A × O) (w : World O)
      → ((t : Text) → table (answer w.outside).1 t ≡ T' t)
      → Sets T d w
      → Sets T' d (request h (some c) q answer w).1
  request-Sets T T' d q answer w e s = record {
    limit = routes.same_limit _ ∙ s.limit;
    listeners = λ t. routes.keep_meanwhile _ t ∙ e t;
    subscriptions =
        ap (λ v. v.subscriptions) (routes.steady _)
        ∙ ap (λ v. v.subscriptions) (update_self w.clients c _)
        ∙ s.subscriptions;
  }

  pub request-Agree :
      {A : Type 0} (q : Request) (answer : O → Outcome A × O) (w : World O)
      → ((t : Text) → table (answer w.outside).1 t ≡ table w.outside t)
      → Agree w
      → Agree (request h (some c) q answer w).1
  request-Agree q answer w e a =
      let d = (w.clients c).subscriptions in
      Sets-Agree (λ t. funcs_of (get t d)) d _
        (request-Sets (λ t. funcs_of (get t d)) (λ t. funcs_of (get t d)) d q answer w
          (λ t. e t ∙ a.routed t) (Agree-Sets w a))
        (λ t. refl)

  within :
      (w : World O) (n : ℕ)
      → n ≤ m
      → w.broker.max_topic_levels ≡ m
      → ltb w.broker.max_topic_levels n ≡ false
  within w n le e = ground arith

  mq_subscribe-Sets :
      (T : Text → List Func) (d : Dict Subscription) (t : Text) (f : Func) (w : World O)
      → topic_level_count (some t) ≤ m
      → Sets T d w
      → Sets (λ t'. if text_eq t t' then T t' ++ (f ∷ []) else T t') d (mq_subscribe h c t f w).1
  unfolding mq_subscribe
  mq_subscribe-Sets T d t f w low s =
      let T' : Text → List Func = λ t'. if text_eq t t' then T t' ++ (f ∷ []) else T t' in
      subst (λ (r : Outcome (Unit {0}) × World O). Sets T' d r.1)
        (sym (
          if_false (ltb w.broker.max_topic_levels (topic_level_count (some t))) _ _
            (within w (topic_level_count (some t)) low s.limit)))
        (request-Sets T T' d (asks_mq_on t f) (h.mq_on c t f) w
          (λ t'.
            routes.on_listens t f w.outside t'
            ∙ ap (λ x. if text_eq t t' then x ++ (f ∷ []) else x) (s.listeners t'))
          s)

  pub mq_unsubscribe-Sets :
      (T T' : Text → List Func) (d : Dict Subscription) (t : Text) (f : Option Func) (w : World O)
      → topic_level_count (some t) ≤ m
      → ((t' : Text) → table (h.mq_remove c t f w.outside).1 t' ≡ T' t')
      → Sets T d w
      → Sets T' d (mq_unsubscribe h c t f w).1
  unfolding mq_unsubscribe
  mq_unsubscribe-Sets T T' d t f w low e s =
      subst (λ (r : Outcome (Unit {0}) × World O). Sets T' d r.1)
        (sym (
          if_false (ltb w.broker.max_topic_levels (topic_level_count (some t))) _ _
            (within w (topic_level_count (some t)) low s.limit)))
        (request-Sets T T' d (asks_mq_remove t f) (h.mq_remove c t f) w e s)

  set_subscription-Sets :
      (T : Text → List Func) (d : Dict Subscription) (t : Text) (x : Subscription) (w : World O)
      → Sets T d w
      → Sets T (put t x d) (set_subscription h c t x w)
  unfolding set_subscription
  set_subscription-Sets T d t x w s = record {
    limit = s.limit;
    listeners = s.listeners;
    subscriptions =
        ap (λ v. v.subscriptions) (update_self w.clients c _) ∙ ap (put t x) s.subscriptions;
  }

  put-funcs_of :
      (t t' : Text) (x : Subscription) (d : Dict Subscription)
      → funcs_of (get t' (put t x d)) ≡ (if text_eq t t' then x.func ∷ [] else funcs_of (get t' d))
  put-funcs_of t t' x d = rw get-put (ground arith)

  -- A topic that is listened to by nothing, and the subscription to it that is put there.
  added :
      (T : Text → List Func) (d : Dict Subscription) (t : Text) (x : Subscription) (t' : Text)
      → T t ≡ []
      → (text_eq t t' ≡ false → T t' ≡ funcs_of (get t' d))
      → (if text_eq t t' then T t' ++ (x.func ∷ []) else T t') ≡ funcs_of (get t' (put t x d))
  added T d t x t' free others =
      if_cases (text_eq t t') (T t' ++ (x.func ∷ [])) (x.func ∷ []) (T t') (funcs_of (get t' d))
        (λ e.
          ap (λ u. T u ++ (x.func ∷ [])) (sym ((text_eq_iff t t').0 e))
          ∙ ap (λ l. l ++ (x.func ∷ [])) free)
        others
      ∙ sym (put-funcs_of t t' x d)

  replace_subscription-Agree :
      (T0 T : Text → List Func) (d : Dict Subscription) (t : Text) (old : Option Func)
      (x : Subscription) (w : World O)
      → topic_level_count (some t) ≤ m
      → Sets T0 d w
      → ((t' : Text) → table (h.mq_remove c t old w.outside).1 t' ≡ T t')
      → T t ≡ []
      → ((t' : Text) → text_eq t t' ≡ false → T t' ≡ funcs_of (get t' d))
      → Agree (replace_subscription h c t old x w).1
  unfolding replace_subscription
  replace_subscription-Agree T0 T d t old x w low s e free others =
      let w1 = (mq_unsubscribe h c t old w).1 in
      let w2 = set_subscription h c t x w1 in
      Sets-Agree (λ t'. if text_eq t t' then T t' ++ (x.func ∷ []) else T t') (put t x d) _
        (mq_subscribe-Sets T (put t x d) t x.func w2 low
          (set_subscription-Sets T d t x w1 (mq_unsubscribe-Sets T0 T d t old w low e s)))
        (λ t'. added T d t x t' free (others t'))

  add_subscription-Agree :
      (t : Text) (old : Slot Subscription) (x : Subscription) (w : World O)
      → slot t (w.clients c).subscriptions ≡ old
      → topic_level_count (some t) ≤ m
      → Agree w
      → Agree (add_subscription h c t old x w).1
  unfolding add_subscription
  add_subscription-Agree t absent x w at low a =
      let d = (w.clients c).subscriptions in
      let T : Text → List Func = λ t'. funcs_of (get t' d) in
      Sets-Agree (λ t'. if text_eq t t' then T t' ++ (x.func ∷ []) else T t') (put t x d) _
        (mq_subscribe-Sets T (put t x d) t x.func (set_subscription h c t x w) low
          (set_subscription-Sets T d t x w (Agree-Sets w a)))
        (λ t'. added T d t x t' (ap funcs_of (get-slot_absent t d at)) (λ _. refl))
  add_subscription-Agree t builtin x w at low a =
      let d = (w.clients c).subscriptions in
      let T : Text → List Func = λ t'. funcs_of (get t' d) in
      let free = ap funcs_of (get-slot_builtin t d at) in
      replace_subscription-Agree T T d t none x w low (Agree-Sets w a)
        (λ t'. routes.remove_none t none w.outside (a.routed t ∙ free) t' ∙ a.routed t') free
        (λ t' _. refl)
  add_subscription-Agree t (own s) x w at low a =
      let d = (w.clients c).subscriptions in
      let T : Text → List Func = λ t'. funcs_of (get t' d) in
      if_both {A = Outcome (Unit {0}) × World O} (λ r. Agree r.1) (same_subscription s x) a
        (replace_subscription-Agree T (λ t'. if text_eq t t' then [] else T t') d t (some s.func) x
          w low (Agree-Sets w a)
          (λ t'.
            routes.remove_stops t s.func w.outside
              (a.routed t ∙ ap funcs_of (get-slot_own t s d at)) t'
            ∙ ap (λ y. if text_eq t t' then [] else y) (a.routed t'))
          (if_true (text_eq t t) [] (T t) (text_eq_refl t))
          (λ t' e. if_false (text_eq t t') [] (T t') e))

  pub add_subs-Agree :
      (original : Sub) (o : Option Sub) (w : World O)
      → ((sub : Sub) → o ≡ some sub → topic_level_count (some sub.topic) ≤ m)
      → Agree w
      → Agree (add_subs h c original o w).1
  unfolding add_subs
  add_subs-Agree original none w low a = a
  add_subs-Agree original (some sub) w low a =
      let r =
        add_subscription h c sub.topic (slot sub.topic (w.clients c).subscriptions)
          (subscription_of original sub) w in
      if_both {A = Outcome (Option Sub) × World O} (λ r. Agree r.1)
        ((w.clients c).closed || w.broker.closed) a
        (then_none r (
          add_subscription-Agree sub.topic (slot sub.topic (w.clients c).subscriptions)
            (subscription_of original sub) w refl (low sub refl) a))
    where
      then_none :
          (r : Outcome (Unit {0}) × World O)
          → Agree r.1
          → Agree (continue_with {B = Option Sub} (λ _. pure none) r).1
      then_none (done x, w) q = q
      then_none (fail e, w) q = q
      then_none (silent, w) q = q
