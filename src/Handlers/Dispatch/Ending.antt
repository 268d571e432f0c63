-- ===== src/Handlers/Dispatch/Ending.antt =====
-- How `handle` of lib/handlers/index.js ends for a client that does not connect.
use aedes.Common.{ℕ, ◌≡◌, ◌≢◌, ◌≤◌, refl, ◌||◌, false, some, if_both, inl, inr, Option-cases}
use aedes.Run.{Outcome, silent}
use aedes.Packet.{Cmd, Packet}
use aedes.World.{World, Host, keepalive_refreshed}
use aedes.World.Ends.{Speaks, Stable}
use aedes.World.Closed.{AreBoth-Stable}
use aedes.Handlers.Publish.Ending.{handle_publish-Ends}
use aedes.Handlers.Acks.Ending.{
  handle_puback-Ends, handle_pubrec-Ends, handle_pubrel-Ends, handle_ping-Ends,
}
use aedes.Handlers.Unsubscribe.Ending.{handle_unsubscribe-ends}
use aedes.Handlers.Subscribe.Ending.{IsOpen, handle_subscribe-ends}
use aedes.Handlers.Dispatch.{refresh, disconnect, switch, handle_cmd, handle}

module _ {O : Type 0} (h : Host O) (S : Type 0) (P : World O → Type 0) (stable : Stable h P)
    (speaks : Speaks h S) (c : ℕ) (open' : (w : World O) → P w → IsOpen c w) where
  refresh-kept : (w : World O) → P w → P (refresh h c w)
  unfolding refresh
  refresh-kept w q = elim (Option-cases (w.clients c).keepalive_interval) [
    | inl never_set ↦ rw (never_set, refresh) q
    | inr (interval, set) ↦ rw (set, refresh) (stable.noted (some c) keepalive_refreshed w q)
  ]

  switch-ends :
      (cmd : Cmd) (p : Packet) (w : World O) → p.qos ≤ 2 → P w → (switch h c cmd p w).0 ≡ silent → S
  unfolding switch disconnect
  switch-ends Cmd.connect p w valid q = λ e. cc
  switch-ends Cmd.publish p w valid q =
      (handle_publish-Ends h S P stable speaks c p _ valid (refresh-kept w q)).1
  switch-ends Cmd.subscribe p w valid q =
      handle_subscribe-ends h S P stable speaks c open' false p _ (refresh-kept w q)
  switch-ends Cmd.unsubscribe p w valid q =
      handle_unsubscribe-ends h S P stable speaks c p.message_id p.unsubscriptions _
        (refresh-kept w q)
  switch-ends Cmd.puback p w valid q =
      (handle_puback-Ends h S P stable speaks c p _ (refresh-kept w q)).1
  switch-ends Cmd.pubcomp p w valid q =
      (handle_puback-Ends h S P stable speaks c p _ (refresh-kept w q)).1
  switch-ends Cmd.pubrel p w valid q =
      (handle_pubrel-Ends h S P stable speaks c p _ (refresh-kept w q)).1
  switch-ends Cmd.pubrec p w valid q =
      (handle_pubrec-Ends h S P stable speaks c p _ (refresh-kept w q)).1
  switch-ends Cmd.pingreq p w valid q =
      (handle_ping-Ends h S P stable speaks c p _ (refresh-kept w q)).1
  switch-ends Cmd.disconnect p w valid q = λ e. cc
  switch-ends _ p w valid q = λ e. cc

  handle_cmd-ends :
      (cmd : Cmd) (p : Packet) (w : World O)
      → cmd ≢ Cmd.connect
      → p.qos ≤ 2
      → P w
      → (handle_cmd h c cmd p w).0 ≡ silent
      → S
  unfolding handle_cmd
  handle_cmd-ends Cmd.connect p w other valid q = absurd (other refl)
  handle_cmd-ends cmd p w other valid q =
      if_both {A = Outcome (Unit {0}) × World O} (λ r. r.0 ≡ silent → S)
        ((w.clients c).connecting || (w.clients c).connected) (switch-ends cmd p w valid q)
        (λ e. cc)

-- If every call of the code outside ends (Speaks) and other tasks do not close the client or the
-- broker, then `handle` calls back for every packet but a CONNECT of an open client, whatever else
-- the code outside answers and whatever the packet holds, if its QoS is one that there is.
pub handle-ends :
    {O : Type 0} (h : Host O) (c : ℕ) (p : Packet) (w : World O)
    → Speaks h ⊥
    → ((v : World O) → IsOpen c v → IsOpen c (h.meanwhile v))
    → IsOpen c w
    → p.cmd ≢ Cmd.connect
    → p.qos ≤ 2
    → (handle h c p w).0 ≢ silent
unfolding handle
handle-ends h c p w speaks kept q other valid =
    handle_cmd-ends h ⊥ (IsOpen c) (AreBoth-Stable false false c h kept) speaks c (λ v q'. q') p.cmd
      p w other valid q
