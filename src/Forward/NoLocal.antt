-- ===== src/Forward/NoLocal.antt =====
-- Packets that a subscription must not get: those that the client itself sent ('no local'), and
-- those to topics that begin with a dollar sign.
use aedes.Common.{
  ℕ, ◌≡◌, refl, ap, ◌∙◌, true, false, ◌&&◌, ◌==◌, none, some, Text, text_eq_refl, if◌then◌else◌,
  if_true, if_both,
}
use aedes.Run.{Outcome}
use aedes.Packet.{Packet}
use aedes.World.{World, Host, Func, asks_outgoing_clear, requested}
use aedes.Delivery.{IsSteady}
use aedes.Forward.{
  starts_with_dollar, same_client, make_packet, get_to_forward_packet, deliver0_forward, deliver0,
  deliver_qos_forward, deliver_qos, deliver_subscribed,
}
use aedes.Forward.Rules.{written, meanwhile-written, note-written}

-- The constructor of aedes-packet copies the id of the client that sent the packet.
pub record CopiesClient {O : Type 0} (h : Host O) : Type 0 where
  pub copies_client :
      (p : Packet) (id : Text) (n : ℕ) → (h.new_packet p id n).0.client_id ≡ p.client_id

module _ {O : Type 0} (h : Host O) (c : ℕ) (steady : IsSteady h c) where
  own_packet_kept_back :
      (id : Text) (p : Packet) (w : World O)
      → (w.clients c).id ≡ some id
      → p.client_id ≡ some id
      → p.nl ≡ true
      → get_to_forward_packet h c p w ≡ (none, w)
  unfolding get_to_forward_packet
  own_packet_kept_back id p w mine sent nl =
      let same : (same_client p.client_id (w.clients c).id && p.nl) ≡ true =
        rw (sent, mine, nl, text_eq_refl) refl in
      if_true (same_client p.client_id (w.clients c).id && p.nl) (none, w) _ same

  deliver0_kept_back :
      (p : Packet) (w : World O)
      → get_to_forward_packet h c p w ≡ (none, w)
      → written c (deliver0 h c p w).1 ≡ written c w
  unfolding deliver0 deliver0_forward
  deliver0_kept_back p w e =
      ap (λ r. written c (deliver0_forward h c r.0 r.1).1) e ∙ meanwhile-written h c steady w

  deliver_qos_kept_back :
      (p : Packet) (w : World O)
      → get_to_forward_packet h c p w ≡ (none, w)
      → written c (deliver_qos h c p w).1 ≡ written c w
  unfolding deliver_qos deliver_qos_forward
  deliver_qos_kept_back p w e =
      if_both {A = Outcome (Unit {0}) × World O} (λ r. written c r.1 ≡ written c w) (p.qos == 0)
        (deliver0_kept_back p w e)
        (ap (λ r. written c (deliver_qos_forward h c p r.0 r.1).1) e
          ∙ if_both {A = Outcome (Unit {0}) × World O} (λ r. written c r.1 ≡ written c w)
              (w.clients c).clean (meanwhile-written h c steady w)
              (meanwhile-written h c steady _
                ∙ meanwhile-written h c steady _
                ∙ note-written h c (requested (asks_outgoing_clear p)) w refl))

  -- If aedes-packet copies the client id and other tasks leave the client alone, then the function
  -- of a subscription with 'no local' writes nothing to the client for a packet that this client
  -- sent.
  pub deliver_subscribed_no_local :
      (copies : CopiesClient h) (func : Func) (id : Text) (p : Packet) (w : World O)
      → func.nl ≡ true
      → (w.clients c).id ≡ some id
      → p.client_id ≡ some id
      → written c (deliver_subscribed h c func p w).1 ≡ written c w
  unfolding deliver_subscribed
  deliver_subscribed_no_local copies func id p w nl mine sent =
      let (made, w') = make_packet h c p w in
      let p' = record made { nl = func.nl; retain = if func.rap then made.retain else false } in
      let back =
        own_packet_kept_back id p' w' mine
          (copies.copies_client p w.broker.id w.broker.counter ∙ sent) nl in
      if_both {A = Outcome (Unit {0}) × World O} (λ r. written c r.1 ≡ written c w)
        (func.block_dollar && starts_with_dollar h c p.topic) refl
        (if_both {A = Outcome (Unit {0}) × World O} (λ r. written c r.1 ≡ written c w) func.with_qos
          (deliver_qos_kept_back p' w' back) (deliver0_kept_back p' w' back))
