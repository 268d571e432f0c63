-- ===== src/Handlers/Publish/Ending.antt =====
-- How PUBLISH ends (lib/handlers/publish.js).
use aedes.Common.{ℕ, ◌==◌, ◌≤◌, ◌<◌, some, arith, Bool-cases, inl, inr}
use aedes.Run.{run_series}
use aedes.Packet.{Packet}
use aedes.World.{World, Host, asks_authorize_publish, asks_incoming_get, asks_incoming_store}
use aedes.World.Ends.{
  Speaks, Stable, Stable-Calm, Ends, throw-Ends, pure-Ends, drop-Ends, bind-Ends, settle-Ends,
  request-Ends,
}
use aedes.World.Steps.{request}
use aedes.Write.Ending.{write-Ends}
use aedes.Broker.Publishing.{publish}
use aedes.Broker.Publishing.Ending.{publish-Ends}
use aedes.Handlers.Publish.{
  pub_ack, pub_rec, authorize_publish, publish_new, publish_qos2, publish_qos1, enqueue_publish,
  publish_actions, handle_publish,
}
use aedes.Handlers.Publish.Cases.{handle_publish_cases}
use aedes.Write.{write}

module _ {O : Type 0} (h : Host O) (S : Type 0) (P : World O → Type 0) (stable : Stable h P)
    (speaks : Speaks h S) (c : ℕ) where
  publish_new-Ends : (p : Packet) (w : World O) → P w → Ends S P (publish_new h c p w)
  unfolding publish_new
  publish_new-Ends p w q =
      bind-Ends S P _
        (request h (some c) (asks_incoming_store p) (h.incoming_store (w.clients c).id p) w)
        (request-Ends h S P (Stable-Calm stable (some c)) (asks_incoming_store p)
          (h.incoming_store (w.clients c).id p) w (speaks.incoming_store (w.clients c).id p) q)
        (λ _ w1 _ q1.
          bind-Ends S P _ (publish h (some c) p w1)
            (publish-Ends h S P (Stable-Calm stable (some c)) speaks p w1 q1)
            (λ _ w2 _ q2. write-Ends h S P stable speaks c (pub_rec p) w2 q2))

  publish_qos2-Ends : (p : Packet) (w : World O) → P w → Ends S P (publish_qos2 h c p w)
  unfolding publish_qos2
  publish_qos2-Ends p w q =
      settle-Ends S P _ _
        (request h (some c) (asks_incoming_get p) (h.incoming_get (w.clients c).id p) w)
        (request-Ends h S P (Stable-Calm stable (some c)) (asks_incoming_get p)
          (h.incoming_get (w.clients c).id p) w (speaks.incoming_get (w.clients c).id p) q)
        (λ _ w1 q1. write-Ends h S P stable speaks c (pub_rec p) w1 q1)
        (λ _ w1 _ q1. publish_new-Ends p w1 q1)

  publish_qos1-Ends : (p : Packet) (w : World O) → P w → Ends S P (publish_qos1 h c p w)
  unfolding publish_qos1
  publish_qos1-Ends p w q =
      bind-Ends S P _ (write h c (pub_ack p) w) (write-Ends h S P stable speaks c (pub_ack p) w q)
        (λ _ w1 _ q1. publish-Ends h S P (Stable-Calm stable (some c)) speaks p w1 q1)

  -- Only at a QoS that there is not the callback is never called.
  enqueue_publish-Ends :
      (p : Packet) (w : World O) → (2 < p.qos → S) → P w → Ends S P (enqueue_publish h c p w)
  unfolding enqueue_publish
  enqueue_publish-Ends p w valid q = elim (Bool-cases (p.qos == 2)) [
    | inl two ↦ rw two (drop-Ends S P p _ (publish_qos2-Ends p w q))
    | inr not_two ↦ elim (Bool-cases (p.qos == 1)) [
      | inl one ↦ rw (not_two, one) (drop-Ends S P p _ (publish_qos1-Ends p w q))
      | inr not_one ↦ elim (Bool-cases (p.qos == 0)) [
        | inl none ↦
            rw (not_two, not_one, none)
              (drop-Ends S P p _ (publish-Ends h S P (Stable-Calm stable (some c)) speaks p w q))
        | inr not_none ↦ rw (not_two, not_one, not_none) (q, λ _. valid (ground arith))
      ]
    ]
  ]

  pub handle_publish-Ends :
      (p : Packet) (w : World O) → p.qos ≤ 2 → P w → Ends S P (handle_publish h c p w)
  unfolding publish_actions run_series authorize_publish
  handle_publish-Ends p w valid q =
      handle_publish_cases h c (Ends S P) p w (λ e. throw-Ends S P e w q)
        (drop-Ends S P tt _ (
          bind-Ends S P _ (authorize_publish h c p w)
            (request-Ends h S P (Stable-Calm stable (some c)) (asks_authorize_publish p)
              (h.authorize_publish (some c) p) w (speaks.authorize_publish (some c) p) q)
            (λ p' w1 e q1.
              bind-Ends S P _ (enqueue_publish h c p' w1)
                (enqueue_publish-Ends p' w1 (speaks.authorize_qos (some c) p p' w.outside e valid)
                  q1)
                (λ p'' w2 _ q2. pure-Ends S P p'' w2 q2))))
