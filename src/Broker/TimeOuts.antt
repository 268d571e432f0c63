-- ===== src/Broker/TimeOuts.antt =====
-- The timers of a client: `_connectTimer` (lib/client.js) and `_keepaliveTimer`
-- (lib/handlers/connect.js). A timer that was cleared does not fire.
use aedes.Common.{ℕ, none, if◌then◌else◌}
use aedes.Errors.{connect_timeout, keepalive_timeout}
use aedes.World.{World, Host, keepalive_timeout_event}
use aedes.World.Steps.{emit}
use aedes.Broker.Failure.{emit_error}

module _ {O : Type 0} (h : Host O) (c : ℕ) where
  unfoldable pub connect_time_out : World O → World O
  connect_time_out w = if (w.clients c).connect_timer then emit_error h c connect_timeout w else w

  -- `keepaliveTimeout()`
  unfoldable pub keepalive_time_out : World O → World O
  keepalive_time_out w =
      if (w.clients c).keepalive_timer
      then emit_error h c keepalive_timeout (emit none (keepalive_timeout_event c) w)
      else w
