-- ===== src/Session/Drain.antt =====
-- lib/client.js: the callbacks that wait for a full socket to drain (`waitForDrain`,
-- `_handleDrain`, `_handleDrainTimeout`, and what `close` does with them).
pub mod Delivery
pub mod Kept
use aedes.Common.{
  ℕ, suc, ◌+◌, ◌<◌, ◌≡◌, refl, ap, sym, ◌∙◌, Bool, true, false, List, [], ◌∷◌, ◌++◌, map, Option,
  none, some, ltb, if◌then◌else◌, arith, Bool-cases, inl, inr, ◌↔◌, ◌≢◌,
}
use aedes.Errors.{Error, drain_timeout, connection_closed}
use aedes.World.{Client}

-- A callback and the error that it is called with.
abbrev pub Call : Type 0
Call = ℕ × Option Error

abbrev pub answer : Option Error → List ℕ → List Call
answer e = map (λ k. (k, e))

-- `waitForDrain(callback)`, with the `drainTimeout` of the broker. The timer and the listener are
-- set only if there is no timer; setting a listener that is on already would add it again.
unfoldable pub wait_for_drain : ℕ → ℕ → Client → Client
wait_for_drain timeout callback client =
    if ltb 0 timeout
    then (if client.drain_timer
        then record client { pending_drains = client.pending_drains ++ (callback ∷ []) }
        else record client {
          pending_drains = client.pending_drains ++ (callback ∷ []);
          drain_bound = true;
          drain_listener = true;
          drain_timer = true;
        })
    else record client { drain_callbacks = client.drain_callbacks ++ (callback ∷ []) }

handle_drain : Client → List Call × Client
handle_drain client =
    (answer none client.pending_drains, record client { drain_timer = false; pending_drains = [] })

handle_drain_timeout : Client → List Call × Client
handle_drain_timeout client = (
  answer (some drain_timeout) client.pending_drains,
  record client {
    drain_timer = false;
    drain_listener = if client.drain_bound then false else client.drain_listener;
    pending_drains = [];
    conn_destroyed = true;
  },
)

-- The event 'drain' of the connection: its listeners are called, and since they were added by
-- `once` they are gone then.
drain_event : Client → List Call × Client
unfolding handle_drain
drain_event client =
    let direct = answer none client.drain_callbacks in
    let client' = record client { drain_callbacks = []; drain_listener = false } in
    let (calls, client'') = handle_drain client' in
    if client.drain_listener then (calls ++ direct, client'') else (direct, client')

-- In `close`, before the connection is given up.
unfoldable pub flush_drains : Client → List Call × Client
flush_drains client = (
  answer (some connection_closed) client.pending_drains,
  record client {
    drain_timer = false;
    drain_listener = if client.drain_bound then false else client.drain_listener;
    pending_drains = [];
  },
)

-- In the `finish` of `close`: `conn.emit('drain')` and `conn.removeAllListeners('drain')`.
unfoldable pub finish_drains : Client → List Call × Client
unfolding drain_event
finish_drains client =
    let (calls, client') = drain_event client in
    (calls, record client' { drain_listener = false; drain_callbacks = [] })

pub data DrainEvent : Type 0 where
  waits : ℕ → DrainEvent
  drains times_out flushes finishes : DrainEvent

-- The timer fires only while it is set.
unfoldable pub drain_step : ℕ → DrainEvent → Client → List Call × Client
unfolding wait_for_drain handle_drain_timeout drain_event flush_drains finish_drains
drain_step timeout (waits k) client = ([], wait_for_drain timeout k client)
drain_step timeout drains client = drain_event client
drain_step timeout times_out client =
    if client.drain_timer then handle_drain_timeout client else ([], client)
drain_step timeout flushes client = flush_drains client
drain_step timeout finishes client = finish_drains client

unfoldable pub drain_run : ℕ → List DrainEvent → Client → List Call × Client
unfolding drain_step
drain_run timeout [] client = ([], client)
drain_run timeout (e ∷ es) client =
    let (calls, client') = drain_step timeout e client in
    let (calls', client'') = drain_run timeout es client' in (calls ++ calls', client'')

-- The callbacks handed over by the events.
abbrev pub waited : List DrainEvent → List ℕ
waited [] = []
waited (waits k ∷ es) = k ∷ waited es
waited (_ ∷ es) = waited es
