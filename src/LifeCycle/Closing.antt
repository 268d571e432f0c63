-- ===== src/LifeCycle/Closing.antt =====
-- `close` of aedes.js, and the clients that are registered.
use aedes.Common.{ℕ, true}
use aedes.Run.{Outcome}
use aedes.World.Ends.{Speaks}
use aedes.World.{World, Host}
use aedes.World.Closed.{IsClosed}
use aedes.LifeCycle.{begin_closing, end_closing}

-- What closes, stays closed: no other task opens a client or the broker again.
pub record StaysClosed {O : Type 0} (h : Host O) : Type 0 where
  pub stays : (c : ℕ) (w : World O) → IsClosed true c w → IsClosed true c (h.meanwhile w)

module _ {O : Type 0} (h : Host O) (kept : StaysClosed h) (speaks : Speaks h ⊥) (c : ℕ) where
  -- What `close` of an open broker comes to, but for its last two steps.
  abbrev ended : World O → Outcome (Unit {0}) × World O
  ended w =
      let (begun, w1) =
        begin_closing h w.broker.clients
          (record w { broker = record (w.broker) { closed = true } }) in
      end_closing h begun (h.meanwhile w1)
