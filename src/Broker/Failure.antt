-- ===== src/Broker/Failure.antt =====
-- lib/client.js: `_onError`, which every event 'error' of a client comes to.
use aedes.Common.{ℕ, true, Option, none, some, Text, [], if◌then◌else◌, ◌∷◌}
use aedes.Errors.{Error}
use aedes.World.{
  World, Host, Event, destroyed, error_event, client_error_event, connection_error_event,
}
use aedes.World.Steps.{set_client, note, emit}
use aedes.Broker.Registry.{close}

-- `this.id ? 'clientError' : 'connectionError'`
abbrev pub failure_event : ℕ → Error → Option Text → Event
failure_event c e none = connection_error_event c e
failure_event c e (some []) = connection_error_event c e
failure_event c e (some (_ ∷ _)) = client_error_event c e

module _ {O : Type 0} (h : Host O) (c : ℕ) where
  -- `this.conn.destroy(err)`, unless the connection is destroyed already.
  unfoldable pub destroy_once : World O → World O
  destroy_once w =
      if (w.clients c).conn_destroyed
      then w
      else note (some c) destroyed (set_client c (record (w.clients c) { conn_destroyed = true }) w)

  -- `_onError(err)`, with an error.
  unfoldable pub on_error : Error → World O → World O
  unfolding destroy_once close
  on_error e w =
      let w1 = set_client c (record (w.clients c) { errored = true }) w in
      let w2 = destroy_once w1 in
      close h c none (emit none (failure_event c e (w2.clients c).id) w2)

  -- `client.emit('error', err)`
  unfoldable pub emit_error : Error → World O → World O
  unfolding on_error
  emit_error e w = on_error e (emit (some c) (error_event e) w)
