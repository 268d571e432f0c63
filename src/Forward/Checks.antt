-- ===== src/Forward/Checks.antt =====
-- What `getToForwardPacket` of lib/client.js lets through.
use aedes.Common.{ℕ, ◌≡◌, refl, ap, ◌∙◌, ◌&&◌, Option, some, Text, if_both, arith}
use aedes.Packet.{Packet}
use aedes.World.{Client, World, Host, requested, asks_authorize_forward}
use aedes.World.Steps.{set_client}
use aedes.Session.Duplicates.{dedupe}
use aedes.Delivery.{IsSteady}
use aedes.Forward.{
  same_client, downgrade, authorize_forward, get_to_forward_packet, make_packet, deliver0_forward,
  deliver0, write_qos, write_qos_error, qos_packet, update_and_write, deliver_qos_forward,
  deliver_qos,
}
use aedes.World.Heap.{update_self}
use aedes.Forward.Rules.{
  written, Sends, set_client-written, note-written, on_error-written, emit_error-written,
  meanwhile-written, write-Sends,
}

-- The constructor of aedes-packet copies the QoS and the topic, and the hook `authorizeForward`
-- leaves them.
pub record PassesOn {O : Type 0} (h : Host O) : Type 0 where
  pub copies :
      (p : Packet) (id : Text) (n : ℕ)
      → ((h.new_packet p id n).0.qos ≡ p.qos) × ((h.new_packet p id n).0.topic ≡ p.topic)
  pub forwards :
      (c : ℕ) (p q : Packet) (o : O)
      → (h.authorize_forward c p o).0 ≡ some q
      → (q.qos ≡ p.qos) × (q.topic ≡ p.topic)

dedupe-kept :
    (client : Client) (p : Packet)
    → ((dedupe client p).1.trace ≡ client.trace)
      × ((dedupe client p).1.subscriptions ≡ client.subscriptions)
unfolding dedupe
dedupe-kept client p = ground arith

module _ {O : Type 0} (h : Host O) (c : ℕ) (steady : IsSteady h c) (laws : PassesOn h) where
  -- What `getToForwardPacket` leaves, and what it lets through.
  pub record Checked (p : Packet) (w : World O) (r : Option Packet × World O) : Type 0 where
    pub silent_so_far : written c r.1 ≡ written c w
    pub same_subscriptions : (r.1.clients c).subscriptions ≡ (w.clients c).subscriptions
    pub same_packet : (f : Packet) → r.0 ≡ some f → (f.qos ≡ p.qos) × (f.topic ≡ p.topic)

  authorize_forward-Checked : (p : Packet) (w : World O) → Checked p w (authorize_forward h c p w)
  unfolding authorize_forward
  authorize_forward-Checked p w = record {
    silent_so_far = note-written h c (requested (asks_authorize_forward p)) w refl;
    same_subscriptions = ap (λ v. v.subscriptions) (update_self w.clients c _);
    same_packet = λ f e. laws.forwards c p f w.outside e;
  }

  pub get_to_forward_packet-Checked :
      (p : Packet) (w : World O) → Checked p w (get_to_forward_packet h c p w)
  unfolding get_to_forward_packet
  get_to_forward_packet-Checked p w =
      let (same_trace, same_subs) = dedupe-kept (w.clients c) p in
      let client = (dedupe (w.clients c) p).1 in
      let w' = set_client c client w in
      let quiet : written c w' ≡ written c w =
        set_client-written h c client w (ap aedes.Forward.Rules.writes same_trace) in
      let kept : (w'.clients c).subscriptions ≡ (w.clients c).subscriptions =
        ap (λ v. v.subscriptions) (update_self w.clients c client) ∙ same_subs in
      let after = authorize_forward-Checked p w' in
      if_both {A = Option Packet × World O} (Checked p w)
        (same_client p.client_id (w.clients c).id && p.nl)
        (record { silent_so_far = refl; same_subscriptions = refl; same_packet = λ f e. cc })
        (if_both {A = Option Packet × World O} (Checked p w) (dedupe (w.clients c) p).0
          (record {
            silent_so_far = after.silent_so_far ∙ quiet;
            same_subscriptions = after.same_subscriptions ∙ kept;
            same_packet = after.same_packet;
          })
          (record { silent_so_far = quiet; same_subscriptions = kept; same_packet = λ f e. cc }))
