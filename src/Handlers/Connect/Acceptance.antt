-- ===== src/Handlers/Connect/Acceptance.antt =====
-- Which clients become connected (`init` and `authenticate` of lib/handlers/connect.js).
use aedes.Common.{
  ℕ, ◌≤◌, ◌<◌, ◌≡◌, ◌≢◌, refl, ◌⊎◌, ◌↔◌, Bool, true, false, ◌||◌, none, ltb, if◌then◌else◌, arith,
}
use aedes.Errors.{Error, refused}
use aedes.Handlers.Unsubscribe.{close_now}
use aedes.Run.{Outcome, done, fail, silent, M, throw, continue_with, settle_with, run_series}
use aedes.Packet.{Packet}
use aedes.World.{World, Host}
use aedes.Handlers.Connect.{
  ConnectArg, id_length, return_code_of, refusal_code, do_connack, close_refused, refuse,
  authenticated, not_authenticated, authenticate, connect_actions, after_series, set_params, accept,
  init,
}

-- The CONNECT has a version that the broker knows, its client id is not too long for MQTT 3.1, and
-- its keep-alive is within the broker's limit, if there is one.
pub record IsAcceptable (max_id_length keepalive_limit : ℕ) (p : Packet) : Type 0 where
  pub version_known :
      (p.protocol_version ≡ 4)
      ⊎ ((p.protocol_version ≡ 3) × (id_length p.client_id ≤ max_id_length))
  pub keepalive_within :
      (keepalive_limit ≡ 0) ⊎ ((0 < p.keepalive) × (p.keepalive ≤ keepalive_limit))

return_code_of-IsAcceptable : (m k : ℕ) (p : Packet) → return_code_of m k p ≡ 0 → IsAcceptable m k p
unfolding return_code_of
return_code_of-IsAcceptable m k p e = record {
  version_known = ground arith;
  keepalive_within = ground arith;
}

IsAcceptable-return_code_of : (m k : ℕ) (p : Packet) → IsAcceptable m k p → return_code_of m k p ≡ 0
unfolding return_code_of
IsAcceptable-return_code_of m k p ok = ground arith

-- The return code of a CONNECT is 0 exactly if it is acceptable: the version is 4, or it is 3 and
-- the client id is not too long; and there is no limit on the keep-alive, or it is positive and
-- within the limit.
pub return_code_of_iff :
    (max_id_length keepalive_limit : ℕ) (p : Packet)
    → (return_code_of max_id_length keepalive_limit p ≡ 0)
      ↔ IsAcceptable max_id_length keepalive_limit p
return_code_of_iff m k p = (return_code_of-IsAcceptable m k p, IsAcceptable-return_code_of m k p)

continue-done :
    {S A B : Type 0} (f : A → M S B) (r : Outcome A × S) (b : B)
    → (continue_with f r).0 ≡ done b
    → (a : A) × (r.0 ≡ done a)
continue-done f (done a, s) b e = (a, refl)
continue-done f (fail x, s) b e = cc
continue-done f (silent, s) b e = cc

thrown_not_done :
    {S A B : Type 0} (x : Error) (r : Outcome A × S) (b : B)
    → (continue_with (λ _. throw x) r).0 ≢ done b
thrown_not_done x (done a, s) b e = cc
thrown_not_done x (fail y, s) b e = cc
thrown_not_done x (silent, s) b e = cc

settled_not_done :
    {S A B : Type 0} (f : M S B) (r : Outcome A × S) (b : B)
    → ((s : S) → (f s).0 ≢ done b)
    → (settle_with (λ _. f) (λ _. f) r).0 ≢ done b
settled_not_done f (done a, s) b wrong e = wrong s e
settled_not_done f (fail x, s) b wrong e = wrong s e
settled_not_done f (silent, s) b wrong e = cc

module _ {O : Type 0} (h : Host O) (c : ℕ) where
  refuse_not_done :
      (code : ℕ) (arg arg' : ConnectArg) (w : World O) → (refuse h c code arg w).0 ≢ done arg'
  unfolding refuse close_refused
  refuse_not_done code arg arg' w =
      settled_not_done (close_refused h c code) (do_connack h c code arg.session_present w) arg'
        (λ v. thrown_not_done (refused code) (close_now h c v) arg')

  refused_not_done :
      (b : Bool) (code : ℕ) (arg arg' : ConnectArg) (w : World O)
      → ((if b then (silent, w) else refuse h c code arg w).0 ≡ done arg')
      → ⊥
  refused_not_done true code arg arg' w e = cc
  refused_not_done false code arg arg' w e = refuse_not_done code arg arg' w e

  settled-done :
      (arg arg' : ConnectArg) (r : Outcome Bool × World O)
      → (settle_with (authenticated h c arg) (not_authenticated h c arg) r).0 ≡ done arg'
      → r.0 ≡ done true
  unfolding authenticated not_authenticated
  settled-done arg arg' (done true, w) e = refl
  settled-done arg arg' (done false, w) e =
      absurd (refused_not_done ((w.clients c).closed || w.broker.closed) 5 arg arg' w e)
  settled-done arg arg' (fail x, w) e =
      absurd
        (refused_not_done ((w.clients c).closed || w.broker.closed) (refusal_code x) arg arg' w e)
  settled-done arg arg' (silent, w) e = cc

  -- The hook `authenticate` lets the client of the packet in, in some state of the code outside.
  abbrev pub IsLetIn : Packet → Type 0
  IsLetIn p = (o : O) × ((h.authenticate c p.username p.password o).0 ≡ done true)

  accept-IsLetIn : (p : Packet) (w : World O) → (accept h c p w).0 ≡ done tt → IsLetIn p
  unfolding accept connect_actions authenticate run_series
  accept-IsLetIn p w e =
      let start : ConnectArg = record { return_code = 0; session_present = false; subs = none } in
      let w' = set_params h c p w in
      let series = run_series (connect_actions h c p) start w' in
      let (arg, finished) = after_series-done series e in
      let (arg', first) = continue-done _ (authenticate h c p start w') arg finished in
      (w'.outside, settled-done start arg' _ first)
    where
      after_series-done :
          (r : Outcome ConnectArg × World O)
          → (after_series h c r).0 ≡ done tt
          → (a : ConnectArg) × (r.0 ≡ done a)
      after_series-done (done a, w) e = (a, refl)
      after_series-done (fail x, w) e = cc
      after_series-done (silent, w) e = cc

  not_refused :
      (b : Bool) (x y : Outcome (Unit {0}) × World O)
      → (if b then x else y).0 ≡ done tt
      → x.0 ≢ done tt
      → (b ≡ false) × (y.0 ≡ done tt)
  not_refused true x y e wrong = absurd (wrong e)
  not_refused false x y e wrong = (refl, e)

  -- If a CONNECT that preConnect let through ends without an error, which is when the client is
  -- connected, then the packet is acceptable to the broker, and the hook authenticate let the client
  -- in.
  pub init-done :
      (p : Packet) (w : World O)
      → (init h c p w).0 ≡ done tt
      → IsAcceptable w.broker.max_clients_id_length w.broker.keepalive_limit p × IsLetIn p
  unfolding init
  init-done p w e =
      let code = return_code_of w.broker.max_clients_id_length w.broker.keepalive_limit p in
      let (fine, accepted) =
        not_refused (ltb 0 code) _ (accept h c p w) e
          (settled_not_done (throw (refused code)) (do_connack h c code false w) tt (λ v x. cc)) in
      (
        return_code_of-IsAcceptable w.broker.max_clients_id_length w.broker.keepalive_limit p
            (ground arith),
        accept-IsLetIn p w accepted,
      )
