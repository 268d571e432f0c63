-- ===== src/Handlers/Listening.antt =====
-- For tests: a message queue that remembers its listeners for one client.
use mathlib.Core.Option
use aedes.Errors.{external}
use aedes.Common.{
  refl, ◌≡◌, ◌≢◌, Bool, false, not, ◌&&◌, List, [], ◌∷◌, ◌++◌, Option, text_eq, text_eq_iff, sym,
  ap, ◌∙◌, Bool-cases, inl, inr, if_true, if_false, none, some, Text, leb, true, if◌then◌else◌,
  arith,
}
use aedes.Run.{Outcome, done, fail}
use aedes.Dict.{get}
use aedes.Topic.{topic_level_count}
use aedes.World.{World, Host, Func, taken}
use aedes.Sample.{sample_broker, connected_client}
use aedes.Handlers.Subscribe.Routing.{Routes, Agree}

-- The listeners in the order in which they were added: a topic may have several.
abbrev pub Listeners : Type 0
Listeners = List (Text × Func)

unfoldable pub listeners : Listeners → Text → List Func
unfolding text_eq
listeners [] t = []
listeners ((j, g) ∷ o) t = let rest = listeners o t in if text_eq j t then g ∷ rest else rest

abbrev same_bool : Bool → Bool → Bool
same_bool true b = b
same_bool false b = not b

abbrev same_func : Func → Func → Bool
same_func f g =
    same_bool f.with_qos g.with_qos
    && (same_bool f.nl g.nl && (same_bool f.rap g.rap && same_bool f.block_dollar g.block_dollar))

same_bool_refl : (b : Bool) → same_bool b b ≡ true
same_bool_refl true = refl
same_bool_refl false = refl

same_func_refl : (f : Func) → same_func f f ≡ true
same_func_refl f =
    rw
      (
        same_bool_refl f.with_qos,
        same_bool_refl f.nl,
        same_bool_refl f.rap,
        same_bool_refl f.block_dollar,
      )
      refl

-- The list without the listener, if it is there.
take_out : Text → Func → Listeners → Option Listeners
unfolding text_eq
take_out t f [] = none
take_out t f ((j, g) ∷ o) =
    let rest = take_out t f o in
    if text_eq j t && same_func f g then some o else Option.map (λ x. (j, g) ∷ x) rest

-- A removal of what is not there fails.
after_removal : Listeners → Option Listeners → Outcome (Unit {0}) × Listeners
after_removal o none = (fail (external 0), o)
after_removal o (some o') = (done tt, o')

pub stop : Text → Option Func → Listeners → Outcome (Unit {0}) × Listeners
unfolding take_out after_removal
stop t none o = (fail (external 0), o)
stop t (some f) o = after_removal o (take_out t f o)

-- The hook refuses topics of more than a hundred levels.
abbrev pub listening_host : Host Listeners
listening_host = record {
  meanwhile = λ w. w;
  write_to_stream = λ c p o. (taken, o);
  drained = λ c o. (done tt, o);
  new_packet = λ p id n. (p, n);
  authorize_publish = λ c p o. (done p, o);
  authorize_subscribe = λ c sub o.
      (done (if leb (topic_level_count (some sub.topic)) 100 then some sub else none), o);
  authorize_forward = λ c p o. (some p, o);
  pre_connect = λ c p o. (done true, o);
  authenticate = λ c name password o. (done true, o);
  published = λ p o. (done tt, o);
  incoming_get = λ id p o. (done (some p), o);
  incoming_store = λ id p o. (done tt, o);
  incoming_del = λ id p o. (done tt, o);
  outgoing_update = λ id p o. (done tt, o);
  outgoing_clear = λ id p o. (done p, o);
  outgoing_enqueue = λ id p o. (done tt, o);
  store_retained = λ p o. (done tt, o);
  subscriptions_by_topic = λ t o. (done [], o);
  enqueue_combi = λ ts p o. (done tt, o);
  del_will = λ id o. (done tt, o);
  put_will = λ id p o. (done tt, o);
  stream_will = λ brokers o. ([], o);
  add_subscriptions = λ id subs o. (done tt, o);
  remove_subscriptions = λ id topics o. (done tt, o);
  clean_subscriptions = λ id o. (done tt, o);
  subscriptions_by_client = λ id o. (done [], o);
  retained_stream = λ topics o. ([], o);
  outgoing_stream = λ id o. (done [], o);
  mq_emit = λ p o. (done tt, o);
  mq_on = λ c t f o. (done tt, o ++ ((t, f) ∷ []));
  mq_remove = λ c t f o. stop t f o;
  json_subscribes = λ id subs. [];
  json_unsubscribes = λ id topics. [];
  random_uuid = λ o. ([], o);
}

added-listeners :
    (t : Text) (f : Func) (o : Listeners) (t' : Text)
    → listeners (o ++ ((t, f) ∷ [])) t'
      ≡ (if text_eq t t' then listeners o t' ++ (f ∷ []) else listeners o t')
unfolding listeners
added-listeners t f [] t' = ground arith
added-listeners t f ((j, g) ∷ o) t' = ground (arith, added-listeners t f o t')

nothing : (f : Func) → ◌≢◌ {A = List Func} [] (f ∷ [])
nothing f e = cc

something : (f : Func) (fs : List Func) → (f ∷ fs) ≢ []
something f fs e = cc

head_eq : {f g : Func} {fs gs : List Func} → f ∷ fs ≡ g ∷ gs → f ≡ g
head_eq e = cc

tail_eq : {f g : Func} {fs gs : List Func} → f ∷ fs ≡ g ∷ gs → fs ≡ gs
tail_eq e = cc

without_first :
    (j t : Text) (g : Func) (o : Listeners) (t' : Text)
    → j ≡ t
    → listeners o t ≡ []
    → listeners o t' ≡ (if text_eq t t' then [] else listeners ((j, g) ∷ o) t')
unfolding listeners
without_first j t g o t' same nil = elim (Bool-cases (text_eq t t')) [
  | inl e ↦ rw e (ap (listeners o) (sym ((text_eq_iff t t').0 e)) ∙ nil)
  | inr e ↦ rw (e, same, e) refl
]

without_later :
    (j t : Text) (g : Func) (o o' : Listeners) (t' : Text)
    → text_eq j t ≡ false
    → listeners o' t' ≡ (if text_eq t t' then [] else listeners o t')
    → listeners ((j, g) ∷ o') t' ≡ (if text_eq t t' then [] else listeners ((j, g) ∷ o) t')
unfolding listeners
without_later j t g o o' t' other k = elim (Bool-cases (text_eq t t')) [
  | inl e ↦
      rw (e, ap (text_eq j) (sym ((text_eq_iff t t').0 e)) ∙ other)
        (k ∙ if_true (text_eq t t') _ _ e)
  | inr e ↦ rw e (ap (λ l. if text_eq j t' then g ∷ l else l) (k ∙ if_false (text_eq t t') _ _ e))
]

take_out-none : (t : Text) (f : Func) (o : Listeners) → listeners o t ≡ [] → take_out t f o ≡ none
unfolding listeners take_out
take_out-none t f [] e = refl
take_out-none t f ((j, g) ∷ o) e = elim (Bool-cases (text_eq j t)) [
  | inl same ↦ absurd (something g (listeners o t) (sym (if_true (text_eq j t) _ _ same) ∙ e))
  | inr other ↦ rw (other, take_out-none t f o (sym (if_false (text_eq j t) _ _ other) ∙ e)) refl
]

take_out-only :
    (t : Text) (f : Func) (o : Listeners)
    → listeners o t ≡ f ∷ []
    → (o' : Listeners) × (take_out t f o ≡ some o')
      × ((t' : Text) → listeners o' t' ≡ (if text_eq t t' then [] else listeners o t'))
unfolding listeners take_out
take_out-only t f [] e = absurd (nothing f e)
take_out-only t f ((j, g) ∷ o) e = elim (Bool-cases (text_eq j t)) [
  | inl same ↦
      let p : g ∷ listeners o t ≡ f ∷ [] = sym (if_true (text_eq j t) _ _ same) ∙ e in
      let found : same_func f g ≡ true = ap (same_func f) (head_eq p) ∙ same_func_refl f in
      (
        o,
        rw (same, found) refl,
        λ t'. without_first j t g o t' ((text_eq_iff j t).0 same) (tail_eq p),
      )
  | inr other ↦
      let (o', q, k) = take_out-only t f o (sym (if_false (text_eq j t) _ _ other) ∙ e) in
      ((j, g) ∷ o', rw (other, q) refl, λ t'. without_later j t g o o' t' other (k t'))
]

stop-ends :
    (t : Text) (f : Func) (o : Listeners) → listeners o t ≡ f ∷ [] → (stop t (some f) o).0 ≡ done tt
unfolding stop after_removal
stop-ends t f o e = let (o', q, k) = take_out-only t f o e in ap (λ x. (after_removal o x).0) q

stop-stops :
    (t : Text) (f : Func) (o : Listeners)
    → listeners o t ≡ f ∷ []
    → (t' : Text)
    → listeners (stop t (some f) o).1 t' ≡ (if text_eq t t' then [] else listeners o t')
unfolding stop after_removal
stop-stops t f o e t' =
    let (o', q, k) = take_out-only t f o e in ap (λ x. listeners (after_removal o x).1 t') q ∙ k t'

stop-none :
    (t : Text) (f : Option Func) (o : Listeners)
    → listeners o t ≡ []
    → (t' : Text) → listeners (stop t f o).1 t' ≡ listeners o t'
unfolding stop after_removal
stop-none t none o e t' = refl
stop-none t (some f) o e t' = ap (λ x. listeners (after_removal o x).1 t') (take_out-none t f o e)

pub listening-Routes : Routes listening_host 0 100 listeners
listening-Routes = record {
  on_ends = λ t f o. refl;
  on_listens = λ t f o t'. added-listeners t f o t';
  remove_ends = stop-ends;
  remove_stops = stop-stops;
  remove_none = stop-none;
  keep_meanwhile = λ w t. refl;
  keep_authorize = λ sub o t. refl;
  keep_add = λ id subs o t. refl;
  shallow = λ sub sub' o e. ground arith;
  steady = λ w. refl;
  same_limit = λ w. refl;
}

abbrev pub new_world : World Listeners
new_world = record {
  clients = λ c. connected_client;
  broker = sample_broker;
  outside = [];
  next_callback = 0;
}

pub new_world-Agree : Agree listening_host 0 100 listeners listening-Routes new_world
unfolding get listeners
new_world-Agree = record { limit = refl; routed = λ t. refl }
