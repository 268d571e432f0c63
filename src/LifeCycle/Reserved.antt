-- ===== src/LifeCycle/Reserved.antt =====
-- Topics under "$SYS/" and the default hooks (`defaultAuthorizePublish` of aedes.js, with
-- lib/handlers/publish.js, `close` of lib/client.js and `checkAndPublish` of aedes.js).
use aedes.Common.{ℕ, ◌≡◌, refl, ◌⊎◌, inl, inr, true, some, Option, none, starts_with, if◌then◌else◌}
use aedes.Errors.{
  Error, reserved_topic, empty_publish_topic, hash_in_publish, plus_in_publish, too_many_levels,
}
use aedes.Run.{done, fail, run_series}
use aedes.Dict.{slot}
use aedes.Packet.{Packet, StoredWill}
use aedes.World.{World, Host, asks_authorize_publish, requested}
use aedes.World.Steps.{note}
use aedes.Broker.Publishing.{sys_prefix}
use aedes.Broker.Registry.{delete_will, end_will}
use aedes.Handlers.Publish.{authorize_publish, publish_actions, handle_publish}
use aedes.Handlers.Publish.Guards.{IsPublishable, handle_publish_guards}
use aedes.LifeCycle.{was_heard, check_and_publish}
use aedes.LifeCycle.Hooks.{default_authorize_publish, default_hooks}

-- The world after a question to `authorizePublish` that changed nothing outside.
abbrev pub asked : {O : Type 0} → Host O → Option ℕ → Packet → World O → World O
asked h c packet w = h.meanwhile (note c (requested (asks_authorize_publish packet)) w)

module _ {O : Type 0} (h : Host O) (p : Packet) (reserved : starts_with sys_prefix p.topic ≡ true)
    (w : World O) where
  -- With the default hooks a PUBLISH to a topic that begins with "$SYS/" ends with an error: if the
  -- topic is publishable, with that of the hook, after which nothing has happened but that it was
  -- asked; and otherwise with the error of one of the four tests that come before it, and nothing has
  -- happened.
  pub handle_publish-reserved :
      (c : ℕ)
      → (IsPublishable w.broker.max_topic_levels p.topic
          × (handle_publish (default_hooks h) c p w ≡ (fail reserved_topic, asked h (some c) p w)))
        ⊎ ((¬ IsPublishable w.broker.max_topic_levels p.topic)
            × ((e : Error) × (handle_publish (default_hooks h) c p w ≡ (fail e, w))
                × (((e ≡ empty_publish_topic) ⊎ (e ≡ hash_in_publish))
                    ⊎ ((e ≡ plus_in_publish) ⊎ (e ≡ too_many_levels)))))
  unfolding publish_actions authorize_publish default_authorize_publish run_series
  handle_publish-reserved c = elim (handle_publish_guards (default_hooks h) c p w) [
    | inl q ↦ inl (q.0, rw (q.1, reserved) refl)
    | inr q ↦ inr q
  ]

  end_will-reserved :
      (c : ℕ)
      → end_will (default_hooks h) c (some p) w ≡ (
          if (w.clients c).disconnected
          then (delete_will h c w).1
          else (delete_will h c (asked h (some c) p w)).1)
  unfolding end_will default_authorize_publish
  end_will-reserved c = rw reserved refl

check_and_publish-reserved :
    {O : Type 0} (h : Host O) (will : StoredWill)
    → starts_with sys_prefix will.packet.topic ≡ true
    → (w : World O) (interval now : ℕ)
    → check_and_publish (default_hooks h) interval now will w ≡ (
        if was_heard interval now (slot will.broker_id w.broker.brokers)
        then (done tt, w)
        else (fail reserved_topic, asked h none will.packet w))
unfolding check_and_publish default_authorize_publish
check_and_publish-reserved h will reserved w interval now = rw reserved refl

module _ {O : Type 0} (h : Host O) (will : StoredWill) (w : World O) where
  -- With the default hooks a will for a topic that begins with "$SYS/" is not published. The `close`
  -- of its client asks the hook, unless the client sent DISCONNECT, and deletes the will; the broker
  -- that finds it as the will of another broker asks the hook, unless it has heard that broker, and
  -- ends with the error of the hook.
  pub reserved_will :
      (c interval now : ℕ)
      → starts_with sys_prefix will.packet.topic ≡ true
      → (end_will (default_hooks h) c (some will.packet) w ≡ (
          if (w.clients c).disconnected
          then (delete_will h c w).1
          else (delete_will h c (asked h (some c) will.packet w)).1))
        × ((check_and_publish (default_hooks h) interval now will w ≡ (
            if was_heard interval now (slot will.broker_id w.broker.brokers)
            then (done tt, w)
            else (fail reserved_topic, asked h none will.packet w))))
  reserved_will c interval now reserved = (
    end_will-reserved h will.packet reserved w c,
    check_and_publish-reserved h will reserved w interval now,
  )
