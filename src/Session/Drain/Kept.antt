-- ===== src/Session/Drain/Kept.antt =====
-- What the end of `close` leaves of a Client object when it calls the waiting callbacks.
use aedes.Common.{◌≡◌, refl, List, if_both}
use aedes.World.{Client}
use aedes.Session.Drain.{Call, drain_event, finish_drains}

-- The id and the authorization stay.
pub record KeepsIdentity (before after : Client) : Type 0 where
  pub same_id : after.id ≡ before.id
  pub same_authorized : after.authorized ≡ before.authorized

drain_event-KeepsIdentity : (client : Client) → KeepsIdentity client (drain_event client).1
unfolding drain_event
drain_event-KeepsIdentity client =
    if_both {A = List Call × Client} (λ r. KeepsIdentity client r.1) client.drain_listener
      (record { same_id = refl; same_authorized = refl })
      (record { same_id = refl; same_authorized = refl })

pub finish_drains-KeepsIdentity : (client : Client) → KeepsIdentity client (finish_drains client).1
unfolding finish_drains
finish_drains-KeepsIdentity client =
    let kept = drain_event-KeepsIdentity client in
    record { same_id = kept.same_id; same_authorized = kept.same_authorized }

pub finish_drains-closed : (client : Client) → (finish_drains client).1.closed ≡ client.closed
unfolding finish_drains drain_event
finish_drains-closed client =
    if_both {A = List Call × Client} (λ r. r.1.closed ≡ client.closed) client.drain_listener refl
      refl
