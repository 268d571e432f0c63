-- ===== src/Handlers/Subscribe.antt =====
-- lib/handlers/subscribe.js: SUBSCRIBE, and the restoring of a session's subscriptions.
-- The hook `authorizeSubscribe` is taken to pass a subscription on or another in its place, and not
-- to change the object that it is given. The topics of a packet are worked on one after the other:
-- one of the orders in which their callbacks may come. (Interleaving has all of them.)
pub mod Dedupe
pub mod Parallel
pub mod Routing
pub mod Agreement
pub mod Ending
pub mod Interleaving
use aedes.Common.{
  ℕ, ◌+◌, Bool, true, false, not, ◌&&◌, ◌||◌, List, [], ◌∷◌, ◌++◌, Option, none, some, Text, codes,
  map, length, ltb, ◌==◌, if◌then◌else◌,
}
use aedes.Errors.{Error, subscribe_verb, too_many_levels}
use aedes.Run.{Outcome, done, fail, silent, M, pure, throw, never, ◌>>◌, settle, both, run_fall}
use aedes.Dict.{Dict, Slot, absent, builtin, own, slot, put}
use aedes.Topic.{topic_level_count, plus, hash, validate_topic}
use aedes.Packet.{Cmd, Packet, Sub, blank}
use aedes.World.{
  Client, World, Host, Func, Subscription, subscribe_event, asks_authorize_subscribe, asks_mq_on,
  asks_mq_remove, asks_add_subscriptions, requested, asks_retained,
}
use aedes.World.Steps.{set_client, note, emit, request}
use aedes.Write.{write}
use aedes.Broker.Publishing.{publish, sys_prefix}
use aedes.Forward.{deliver_qos}
use aedes.Handlers.Subscription.{sub_ack, dedupe_subs, same_subscription, subscription_of}

-- A `SubState`, of which only `granted` changes, and the world.
pub record Item (O : Type 0) : Type 0 where
  pub world : World O
  pub granted : ℕ

module _ {O : Type 0} where
  abbrev pub in_world : {A : Type 0} → M (World O) A → M (Item O) A
  in_world m s = let (r, w) = m s.world in (r, record s { world = w })

module _ {O : Type 0} (h : Host O) (c : ℕ) where
  -- `broker.subscribe(topic, func, done)`
  unfoldable pub mq_subscribe : Text → Func → M (World O) (Unit {0})
  mq_subscribe topic func w =
      if ltb w.broker.max_topic_levels (topic_level_count (some topic))
      then throw too_many_levels w
      else request h (some c) (asks_mq_on topic func) (h.mq_on c topic func) w

  -- `broker.unsubscribe(topic, func, done)`; the function of a member of `Object.prototype` is
  -- undefined.
  unfoldable pub mq_unsubscribe : Text → Option Func → M (World O) (Unit {0})
  mq_unsubscribe topic func w =
      if ltb w.broker.max_topic_levels (topic_level_count (some topic))
      then throw too_many_levels w
      else request h (some c) (asks_mq_remove topic func) (h.mq_remove c topic func) w

  authorize_valid : Sub → Option Error → M (World O) (Option Sub)
  authorize_valid sub (some e) = throw e
  authorize_valid sub none =
      request h (some c) (asks_authorize_subscribe sub) (h.authorize_subscribe c sub)

  authorize : Sub → M (Item O) (Option Sub)
  unfolding authorize_valid validate_topic
  authorize sub s =
      in_world
        (authorize_valid sub
          (validate_topic (some sub.topic) subscribe_verb s.world.broker.max_topic_levels))
        s

  -- `packet.subscriptions`, with all topics of the packet, is stored for each topic.
  pub store_subscriptions : List Sub → Option Sub → M (Item O) (Option Sub)
  store_subscriptions subs none s = pure none (record s { granted = 128 })
  store_subscriptions subs (some sub) s =
      if (s.world.clients c).clean
      then pure (some sub) s
      else in_world
          (request h (some c) (asks_add_subscriptions subs)
              (h.add_subscriptions (s.world.clients c).id subs)
            >> pure (some sub))
          s

  set_subscription : Text → Subscription → World O → World O
  set_subscription topic s w =
      set_client c
        (record (w.clients c) { subscriptions = put topic s (w.clients c).subscriptions }) w

  -- Nothing waits for `broker.unsubscribe` here; its end comes before `broker.subscribe`.
  replace_subscription : Text → Option Func → Subscription → M (World O) (Unit {0})
  unfolding set_subscription mq_subscribe mq_unsubscribe
  replace_subscription topic old s w =
      mq_subscribe topic s.func (set_subscription topic s (mq_unsubscribe topic old w).1)

  add_subscription : Text → Slot Subscription → Subscription → M (World O) (Unit {0})
  unfolding replace_subscription set_subscription
  add_subscription topic absent s w = mq_subscribe topic s.func (set_subscription topic s w)
  add_subscription topic builtin s w = replace_subscription topic none s w
  add_subscription topic (own old) s w =
      if same_subscription old s then pure tt w else replace_subscription topic (some old.func) s w

  pub add_subs : Sub → Option Sub → M (World O) (Option Sub)
  unfolding add_subscription subscription_of slot
  add_subs original none w = pure none w
  add_subs original (some sub) w =
      if (w.clients c).closed || w.broker.closed
      then never w
      else (add_subscription sub.topic (slot sub.topic (w.clients c).subscriptions)
              (subscription_of original sub)
            >> pure none)
          w

  pub authorize_given : Option Sub → M (Item O) (Option Sub)
  unfolding authorize
  authorize_given none = pure none
  authorize_given (some sub) = authorize sub

  pub topic_actions : Bool → List Sub → Sub → List (Option Sub → M (Item O) (Option Sub))
  unfolding authorize_given store_subscriptions add_subs
  topic_actions true subs original =
      authorize_given ∷ (λ sub. in_world (add_subs original sub)) ∷ []
  topic_actions false subs original =
      authorize_given ∷ store_subscriptions subs ∷ (λ sub. in_world (add_subs original sub)) ∷ []

  unfoldable pub do_subscribe : Bool → List Sub → Sub → World O → Outcome (Unit {0}) × Item O
  unfolding topic_actions run_fall
  do_subscribe restore subs sub w =
      (run_fall (topic_actions restore subs sub) (some sub) >> pure tt)
        (record { world = w; granted = sub.qos })

  -- `runParallel`, and the list of the `granted` of the `SubState`s.
  unfoldable pub subscribe_all :
      Bool → List Sub → List Sub → World O → Outcome (Unit {0}) × List ℕ × World O
  subscribe_all restore subs [] w = (done tt, [], w)
  subscribe_all restore subs (sub ∷ rest) w =
      let (r, item) = do_subscribe restore subs sub w in
      let (rs, granted, w') = subscribe_all restore subs rest item.world in
      (both r rs, item.granted ∷ granted, w')

  -- `topics`, and the subscriptions with the QoS that was granted.
  unfoldable pub granted_topics : List Sub → List ℕ → List Text
  granted_topics [] granted = []
  granted_topics (sub ∷ subs) [] = []
  granted_topics (sub ∷ subs) (g ∷ gs) =
      let rest = granted_topics subs gs in if g == 128 then rest else sub.topic ∷ rest

  unfoldable pub with_granted : List Sub → List ℕ → List Sub
  with_granted [] granted = []
  with_granted (sub ∷ subs) [] = []
  with_granted (sub ∷ subs) (g ∷ gs) = record sub { qos = g } ∷ with_granted subs gs

  -- `sendRetained`, for each packet of the stream, which gives the next one when it has called back.
  send_retained : List Packet → World O → World O
  send_retained [] w = w
  send_retained (packet ∷ packets) w =
      let copy = record (blank packet.cmd) {
        qos = packet.qos;
        topic = packet.topic;
        payload = packet.payload;
        retain = true;
      } in
      let (made, counter) = h.new_packet copy w.broker.id w.broker.counter in
      let w' = record w { broker = record (w.broker) { counter = counter } } in
      let (r, w'') = deliver_qos h c (record made { broker_id = none }) w' in
      let rest = send_retained packets w'' in elim r [ done _ ↦ rest | _ ↦ w'' ]

  retained : List Text → World O → World O
  unfolding send_retained
  retained [] w = w
  retained (t ∷ ts) w =
      let w' = note (some c) (requested (asks_retained (t ∷ ts))) w in
      let (packets, o) = h.retained_stream (t ∷ ts) w'.outside in
      send_retained packets (h.meanwhile (record w' { outside = o }))

  acknowledge_subscribe : Packet → Packet → M (World O) (Unit {0})
  acknowledge_subscribe packet ack w = elim packet.message_id [
    | none ↦ pure tt w
    | some _ ↦ write h c ack w
  ]

  -- Its result is that of the SUBACK. What follows runs while that is on its way; here it comes after.
  unfoldable pub complete_subscribe : Packet → List Sub → List ℕ → M (World O) (Unit {0})
  unfolding acknowledge_subscribe retained
  complete_subscribe packet subs granted w =
      let (r, w1) = acknowledge_subscribe packet (sub_ack packet granted) w in
      let subs' = with_granted subs granted in
      let news = record (blank Cmd.publish) {
        topic = sys_prefix ++ (w1.broker.id ++ codes "/new/subscribes");
        payload = h.json_subscribes (w1.clients c).id subs';
      } in
      let w2 = (publish h none news (emit none (subscribe_event subs') w1)).1 in
      (r, retained (granted_topics subs granted) w2)

  finish_subscribe :
      Bool
      → Packet
      → List Sub
      → Outcome (Unit {0}) × List ℕ × World O
      → Outcome (Unit {0}) × World O
  unfolding complete_subscribe
  finish_subscribe restore packet subs (fail e, granted, w) = (fail e, w)
  finish_subscribe restore packet subs (silent, granted, w) = (silent, w)
  finish_subscribe true packet subs (done tt, granted, w) = (done tt, w)
  finish_subscribe false packet subs (done tt, granted, w) =
      complete_subscribe packet subs granted w

  -- `handleSubscribe(client, packet, restore, finish)`
  unfoldable pub handle_subscribe : Bool → Packet → M (World O) (Unit {0})
  unfolding subscribe_all finish_subscribe
  handle_subscribe restore packet w =
      let subs =
        if length packet.subscriptions == 1
        then packet.subscriptions
        else dedupe_subs packet.subscriptions in
      finish_subscribe restore packet subs (subscribe_all restore subs subs w)
