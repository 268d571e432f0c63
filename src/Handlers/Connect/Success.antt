-- ===== src/Handlers/Connect/Success.antt =====
-- The end of a CONNECT that is let in (lib/handlers/connect.js).
use mathlib.Core.Path.{subst}
use aedes.Common.{
  ℕ, ◌≡◌, refl, sym, ap, ◌∙◌, Bool, true, false, ◌∷◌, none, some, Text, text_eq_refl, ltb, if_false,
}
use aedes.Run.{Outcome, done, fail, silent, run_series}
use aedes.Dict.{Dict, absent, slot, get, put}
use aedes.Dict.Laws.{get-put}
use aedes.Packet.{Packet}
use aedes.World.{
  Client, World, Host, Request, Event, requested, Written, taken, wrote, asks_authenticate,
  asks_clean_subscriptions, asks_del_will, asks_outgoing_stream, asks_pre_connect,
  connack_sent_event,
}
use aedes.World.Steps.{set_client, note, request}
use aedes.World.Heap.{update_self}
use aedes.Handlers.Connect.{
  return_code_of, connect_actions, pending, chosen_id, set_params, accept, init, pre_connected,
  handle_connect,
}
use aedes.Handlers.Connect.Acceptance.{IsAcceptable, return_code_of_iff}
use aedes.Handlers.Connect.Ready.{IsWelcoming, start, Goes, set_client-Ready}
use aedes.Handlers.Connect.Series.{series-Goes, Connected, after_series-Connected}

module _ {O : Type 0} (h : Host O) (c : ℕ) (p : Packet) (welcome : IsWelcoming h c p) (x : ℕ)
    (xs : Text) (named : p.client_id ≡ some (x ∷ xs)) (clean : p.clean ≡ true)
    (no_will : p.will ≡ none) where
  abbrev identified : World O → Client
  identified w = record (w.clients c) {
    id = some (x ∷ xs);
    clean = p.clean;
    version = p.protocol_version;
    pending_will = pending h c p.will;
  }

  set_params-identified : (w : World O) → set_params h c p w ≡ set_client c (identified w) w
  unfolding set_params
  set_params-identified w =
      ap
        (λ (r : Text × World O).
          set_client c
            (record (r.1.clients c) {
              id = some r.0;
              clean = p.clean;
              version = p.protocol_version;
              pending_will = pending h c p.will;
            })
            r.1)
        (ap (λ k. chosen_id h c k w) named)

  accept-Connected :
      (d : Dict ℕ) (w : World O)
      → slot (x ∷ xs) d ≡ absent
      → (w.clients c).connecting ≡ true
      → (w.clients c).closed ≡ false
      → w.broker.clients ≡ d
      → w.broker.closed ≡ false
      → Connected h c p welcome (x ∷ xs) (put (x ∷ xs) c d) (accept h c p w)
  unfolding accept
  accept-Connected d w free busy open' same broker_open =
      let w' = set_client c (identified w) w in
      after_series-Connected h c p welcome (x ∷ xs) (put (x ∷ xs) c d) _ (
        subst
          (λ v.
            Goes h c p welcome (x ∷ xs) start (put (x ∷ xs) c d)
              (run_series (connect_actions h c p) start v))
          (sym (set_params-identified w))
          (series-Goes h c p welcome (x ∷ xs) d w' clean free
            (set_client-Ready h c p welcome (x ∷ xs) d (identified w) w
              (record { is_connecting = busy; named = refl; no_will = ap (pending h c) no_will })
              same)
            (ap (λ v. v.closed) (update_self w.clients c (identified w)) ∙ open') broker_open))

  -- The broker and the client when `init` begins.
  record Awaits (b : aedes.World.Broker) (w : World O) : Type 0 where
    busy : (w.clients c).connecting ≡ true
    open' : (w.clients c).closed ≡ false
    same_broker : w.broker ≡ b

  init-Connected :
      (b : aedes.World.Broker) (w : World O)
      → IsAcceptable b.max_clients_id_length b.keepalive_limit p
      → slot (x ∷ xs) b.clients ≡ absent
      → b.closed ≡ false
      → Awaits b w
      → Connected h c p welcome (x ∷ xs) (put (x ∷ xs) c b.clients) (init h c p w)
  unfolding init
  init-Connected b w fine free broker_open a =
      let code = return_code_of w.broker.max_clients_id_length w.broker.keepalive_limit p in
      let accepted : ltb 0 code ≡ false =
        ap
          (λ (k : aedes.World.Broker).
            ltb 0 (return_code_of k.max_clients_id_length k.keepalive_limit p))
          a.same_broker
        ∙ ap (ltb 0) ((return_code_of_iff b.max_clients_id_length b.keepalive_limit p).1 fine) in
      subst (Connected h c p welcome (x ∷ xs) (put (x ∷ xs) c b.clients))
        (sym (if_false (ltb 0 code) _ _ accepted))
        (accept-Connected b.clients w free a.busy a.open' (ap (λ k. k.clients) a.same_broker)
          (ap (λ k. k.closed) a.same_broker ∙ broker_open))

  meanwhile-Awaits : (b : aedes.World.Broker) (w : World O) → Awaits b w → Awaits b (h.meanwhile w)
  meanwhile-Awaits b w a = record {
    busy = ap (λ heap. (heap c).connecting) (welcome.same_clients w) ∙ a.busy;
    open' = ap (λ heap. (heap c).closed) (welcome.same_clients w) ∙ a.open';
    same_broker = welcome.same_broker w ∙ a.same_broker;
  }

  pre_connected-Connected :
      (b : aedes.World.Broker) (r : Outcome Bool × World O)
      → IsAcceptable b.max_clients_id_length b.keepalive_limit p
      → slot (x ∷ xs) b.clients ≡ absent
      → b.closed ≡ false
      → r.0 ≡ done true
      → Awaits b r.1
      → Connected h c p welcome (x ∷ xs) (put (x ∷ xs) c b.clients) (pre_connected h c p r)
  unfolding pre_connected
  pre_connected-Connected b (done true, w) fine free broker_open e a =
      init-Connected b (h.meanwhile w) fine free broker_open (meanwhile-Awaits b w a)
  pre_connected-Connected b (done false, w) fine free broker_open e a = absurd (cc e)
  pre_connected-Connected b (fail y, w) fine free broker_open e a = absurd (cc e)
  pre_connected-Connected b (silent, w) fine free broker_open e a = absurd (cc e)

  -- If the CONNECT of an open client is acceptable, asks for a clean session without a will and has
  -- a client id that is free, the broker is open, the hooks let the client in, the code outside
  -- answers, takes what is written and has nothing for the client, and nothing else happens
  -- meanwhile, then the handler ends without an error, and the client is connected and registered
  -- under its id.
  pub handle_connect-connected :
      (w : World O)
      → IsAcceptable w.broker.max_clients_id_length w.broker.keepalive_limit p
      → slot (x ∷ xs) w.broker.clients ≡ absent
      → (w.clients c).closed ≡ false
      → w.broker.closed ≡ false
      → let (result, w') = handle_connect h c p w in
        (result ≡ done tt)
        × ((w'.clients c).connected ≡ true)
        × (get (x ∷ xs) w'.broker.clients ≡ some c)
  unfolding handle_connect
  handle_connect-connected w fine free open' broker_open =
      let v = record (w.clients c) { connect_timer = false; connecting = true } in
      let w0 = set_client c v w in
      let noted = note (some c) (requested (asks_pre_connect p)) w0 in
      let answer = h.pre_connect c p noted.outside in
      let w1 : World O = record noted { outside = answer.1 } in
      let (ended, connected, entered) =
        pre_connected-Connected w.broker
          (request h (some c) (asks_pre_connect p) (h.pre_connect c p) w0) fine free broker_open
          (welcome.pre_connects noted.outside)
          (meanwhile-Awaits w.broker w1 (record {
            busy =
                ap (λ k. k.connecting) (update_self w0.clients c _)
                ∙ ap (λ k. k.connecting) (update_self w.clients c v);
            open' =
                ap (λ k. k.closed) (update_self w0.clients c _)
                ∙ ap (λ k. k.closed) (update_self w.clients c v)
                ∙ open';
            same_broker = refl;
          })) in
      (
        ended,
        connected,
        ap (get (x ∷ xs)) entered
            ∙ get-put (x ∷ xs) (x ∷ xs) c w.broker.clients
            ∙ rw (text_eq_refl) refl,
      )
