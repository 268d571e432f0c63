-- ===== src/LifeCycle/Hooks.antt =====
-- aedes.js: the hooks of a broker whose options give none (`defaultOptions`).
use aedes.Common.{ℕ, Bool, true, Option, some, Text, starts_with, if◌then◌else◌}
use aedes.Errors.{reserved_topic}
use aedes.Run.{Outcome, done, fail}
use aedes.Packet.{Packet, Sub}
use aedes.World.{Host}
use aedes.Broker.Publishing.{sys_prefix}

module _ {O : Type 0} where
  abbrev default_pre_connect : ℕ → Packet → O → Outcome Bool × O
  default_pre_connect c packet o = (done true, o)

  abbrev default_authenticate : ℕ → Option Text → Option Text → O → Outcome Bool × O
  default_authenticate c username password o = (done true, o)

  unfoldable pub default_authorize_publish : Option ℕ → Packet → O → Outcome Packet × O
  default_authorize_publish c packet o =
      if starts_with sys_prefix packet.topic then (fail reserved_topic, o) else (done packet, o)

  abbrev default_authorize_subscribe : ℕ → Sub → O → Outcome (Option Sub) × O
  default_authorize_subscribe c sub o = (done (some sub), o)

  abbrev default_authorize_forward : ℕ → Packet → O → Option Packet × O
  default_authorize_forward c packet o = (some packet, o)

  abbrev default_published : Packet → O → Outcome (Unit {0}) × O
  default_published packet o = (done tt, o)

  -- `Object.assign({}, defaultOptions, opts)`, where `opts` has no hook.
  abbrev pub default_hooks : Host O → Host O
  default_hooks h = record h {
    pre_connect = default_pre_connect;
    authenticate = default_authenticate;
    authorize_publish = default_authorize_publish;
    authorize_subscribe = default_authorize_subscribe;
    authorize_forward = default_authorize_forward;
    published = default_published;
  }
