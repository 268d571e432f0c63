-- ===== src/Handlers/Connect/Session.antt =====
-- The session that CONNECT finds (`fetchSubs` and `restoreSubs` of lib/handlers/connect.js).
use aedes.Common.{
  ℕ, ◌≡◌, refl, ap, ◌∙◌, Bool, true, false, not, ◌&&◌, List, [], ◌∷◌, Option, none, some, length,
  ltb, Bool-cases, inl, inr, arith,
}
use aedes.Run.{Outcome, done, fail, silent, pure, continue_with, run_series}
use aedes.Packet.{Cmd, Packet, Sub, blank}
use aedes.World.{World, Host, asks_subscriptions_by_client, asks_clean_subscriptions}
use aedes.World.Steps.{request}
use aedes.Handlers.Subscribe.{handle_subscribe}
use aedes.Handlers.Connect.{ConnectArg, some_if_any, fetch_subs, restore, restore_subs}

abbrev is_present : Option (List Sub) → Bool
is_present none = false
is_present (some _) = true

is_present-some_if_any : (subs : List Sub) → is_present (some_if_any subs) ≡ ltb 0 (length subs)
is_present-some_if_any [] = refl
is_present-some_if_any (sub ∷ subs) = ground arith

module _ {O : Type 0} (h : Host O) (c : ℕ) where
  restored :
      (arg arg' : ConnectArg) (b : Bool) (r : Outcome (Unit {0}) × World O)
      → (continue_with pure (continue_with (λ _. pure (record arg { session_present = b })) r)).0
        ≡ done arg'
      → arg'.session_present ≡ b
  restored arg arg' b (done tt, w) e = cc
  restored arg arg' b (fail x, w) e = cc
  restored arg arg' b (silent, w) e = cc

  restore-is_present :
      (arg arg' : ConnectArg) (subs : Option (List Sub)) (w : World O)
      → (continue_with pure (restore h c arg subs w)).0 ≡ done arg'
      → arg'.session_present ≡ is_present subs
  unfolding restore
  restore-is_present arg arg' none w e = cc
  restore-is_present arg arg' (some subs) w e =
      restored arg arg' true
        (handle_subscribe h c true (record (blank Cmd.subscribe) { subscriptions = subs }) w) e

  cleaned :
      (arg arg' : ConnectArg) (r : Outcome (Unit {0}) × World O)
      → arg.subs ≡ none
      → (continue_with
          (run_series (restore_subs h c ∷ []))
          (continue_with (λ _. pure (record arg { session_present = false })) r)).0
        ≡ done arg'
      → arg'.session_present ≡ false
  unfolding run_series restore_subs
  cleaned arg arg' (done tt, w) no_subs e =
      restore-is_present (record arg { session_present = false }) arg' arg.subs w e
      ∙ ap is_present no_subs
  cleaned arg arg' (fail x, w) no_subs e = cc
  cleaned arg arg' (silent, w) no_subs e = cc

  fetched :
      (arg arg' : ConnectArg) (subs : List Sub) (r : Outcome (List Sub) × World O)
      → r.0 ≡ done subs
      → (continue_with
          (run_series (restore_subs h c ∷ []))
          (continue_with (λ found. pure (record arg { subs = some_if_any found })) r)).0
        ≡ done arg'
      → arg'.session_present ≡ ltb 0 (length subs)
  unfolding run_series restore_subs
  fetched arg arg' subs (done found, w) answer e =
      let same : found ≡ subs = cc in
      restore-is_present (record arg { subs = some_if_any found }) arg' (some_if_any found) w e
      ∙ is_present-some_if_any found
      ∙ ap (λ x. ltb 0 (length x)) same
  fetched arg arg' subs (fail x, w) answer e = cc
  fetched arg arg' subs (silent, w) answer e = cc

  -- If the persistence answers with the subscriptions that it keeps for the client, and the steps
  -- fetchSubs and restoreSubs end without an error, then the CONNACK will say that a session is
  -- present exactly if the client asks for no clean session and there is such a subscription.
  pub fetch_subs-session_present :
      (packet : Packet) (arg arg' : ConnectArg) (subs : List Sub) (w : World O)
      → arg.subs ≡ none
      → ((o : O) → (h.subscriptions_by_client (w.clients c).id o).0 ≡ done subs)
      → (run_series (fetch_subs h c packet ∷ restore_subs h c ∷ []) arg w).0 ≡ done arg'
      → arg'.session_present ≡ (not packet.clean && ltb 0 (length subs))
  unfolding fetch_subs run_series
  fetch_subs-session_present packet arg arg' subs w no_subs answers e =
      elim (Bool-cases packet.clean) [
        | inl clean ↦ rw clean (
            cleaned arg arg'
              (request h (some c) asks_clean_subscriptions (h.clean_subscriptions (w.clients c).id)
                w)
              no_subs (rw clean at e))
        | inr kept ↦ rw kept (
            fetched arg arg' subs
              (request h (some c) asks_subscriptions_by_client
                (h.subscriptions_by_client (w.clients c).id) w)
              (answers w.outside) (rw kept at e))
      ]
