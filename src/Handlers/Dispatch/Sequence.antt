-- ===== src/Handlers/Dispatch/Sequence.antt =====
-- Packets out of sequence (lib/handlers/index.js).
use aedes.Common.{ℕ, ◌≡◌, refl, ◌≢◌, ◌⊎◌, inl, inr, ◌||◌, true, false, if_true, if_false, arith}
use aedes.Errors.{invalid_protocol}
use aedes.Run.{fail}
use aedes.Packet.{Cmd, Packet}
use aedes.World.{Client, World, Host}
use aedes.Handlers.Publish.{handle_publish}
use aedes.Handlers.Dispatch.{destroy, refresh, switch, handle_cmd, handle}

-- The first packet is CONNECT, and no other is.
abbrev pub IsOutOfSequence : Client → Cmd → Type 0
IsOutOfSequence client cmd =
    ((cmd ≡ Cmd.connect) × ((client.connecting || client.connected) ≡ true))
    ⊎ ((cmd ≢ Cmd.connect) × ((client.connecting || client.connected) ≡ false))

module _ {O : Type 0} (h : Host O) (c : ℕ) where
  handle_cmd-IsOutOfSequence :
      (cmd : Cmd) (p : Packet) (w : World O)
      → IsOutOfSequence (w.clients c) cmd
      → handle_cmd h c cmd p w ≡ (fail invalid_protocol, destroy h c w)
  unfolding handle_cmd
  handle_cmd-IsOutOfSequence Cmd.connect p w (inl (_, e)) =
      if_true ((w.clients c).connecting || (w.clients c).connected) _ _ e
  handle_cmd-IsOutOfSequence Cmd.connect p w (inr (e, _)) = absurd (e refl)
  handle_cmd-IsOutOfSequence cmd p w (inl (e, _)) = cc
  handle_cmd-IsOutOfSequence cmd p w (inr (_, e)) =
      if_false ((w.clients c).connecting || (w.clients c).connected) _ _ e

  -- A CONNECT of a client that is connecting or connected, and any other packet of a client that is
  -- neither, ends with the error 'Invalid protocol'; its connection is destroyed, and nothing else
  -- changes.
  handle-IsOutOfSequence :
      (p : Packet) (w : World O)
      → IsOutOfSequence (w.clients c) p.cmd
      → handle h c p w ≡ (fail invalid_protocol, destroy h c w)
  unfolding handle
  handle-IsOutOfSequence p w out = handle_cmd-IsOutOfSequence p.cmd p w out

  refresh-kept :
      (w : World O) → ((refresh h c w).broker ≡ w.broker) × ((refresh h c w).outside ≡ w.outside)
  unfolding refresh
  refresh-kept w = ground arith

  handle_cmd-publish :
      (cmd : Cmd) (p : Packet) (w : World O)
      → cmd ≡ Cmd.publish
      → (w.clients c).connecting ≡ true
      → (w' : World O) × (handle_cmd h c cmd p w ≡ handle_publish h c p w')
        × (w'.broker ≡ w.broker)
        × (w'.outside ≡ w.outside)
  unfolding handle_cmd switch
  handle_cmd-publish Cmd.publish p w e connecting = (
    refresh h c w,
    if_true ((w.clients c).connecting || (w.clients c).connected) _ _ (ground arith),
    (refresh-kept w).0,
    (refresh-kept w).1,
  )
  handle_cmd-publish cmd p w e connecting = cc

  -- A PUBLISH of a client that is still connecting goes to the handler of PUBLISH, as if the client
  -- were connected: that the client has been authenticated is not asked.
  pub handle-connecting :
      (p : Packet) (w : World O)
      → p.cmd ≡ Cmd.publish
      → (w.clients c).connecting ≡ true
      → (w' : World O) × (handle h c p w ≡ handle_publish h c p w')
        × (w'.broker ≡ w.broker)
        × (w'.outside ≡ w.outside)
  unfolding handle
  handle-connecting p w e connecting = handle_cmd-publish p.cmd p w e connecting
