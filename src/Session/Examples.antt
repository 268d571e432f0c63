-- ===== src/Session/Examples.antt =====
-- Tests of the parts of a client, and their theorems at concrete clients.
use aedes.Common.{ℕ, ◌≤◌, ◌≡◌, refl, ◌≢◌, false, [], ◌∷◌, ◌++◌, some, get_elem?, arith}
use aedes.Packet.{Cmd, Packet, blank}
use aedes.Session.Sample.{new_client}
use aedes.Session.MessageIds.{assigned_ids, assigned_ids-ne}
use aedes.Session.Duplicates.{dedupe, passed, Ascends, passed-Ascends}
use aedes.Session.Drain.{waits, drains, times_out, drain_run}
use aedes.Session.Drain.Delivery.{called, drain_run-called}
use aedes.Session.Inbox.{readable, pauses, connacks, connects, resumes, inbox_run, fresh_inbox}
use aedes.Session.Inbox.Bound.{IsBounded, inbox_run-IsBounded}
use aedes.Session.Inbox.Order.{inbox_run-handled}

abbrev p1 : Packet
p1 = blank Cmd.publish

abbrev connect_packet : Packet
connect_packet = blank Cmd.connect

assigned_ids_test :
    assigned_ids (p1 ∷ p1 ∷ p1 ∷ []) (new_client 65534) ≡ some 65534 ∷ some 65535 ∷ some 1 ∷ []
unfolding assigned_ids
assigned_ids_test = refl

assigned_ids-ne_example :
    (get_elem? (assigned_ids (p1 ∷ p1 ∷ p1 ∷ []) (new_client 65535)) 0
      ≢ get_elem? (assigned_ids (p1 ∷ p1 ∷ p1 ∷ []) (new_client 65535)) 2)
    × ((n : ℕ) × (get_elem? (assigned_ids (p1 ∷ p1 ∷ p1 ∷ []) (new_client 65535)) 2 ≡ some (some n))
        × (1 ≤ n)
        × (n ≤ 65535))
assigned_ids-ne_example =
    assigned_ids-ne (p1 ∷ p1 ∷ p1 ∷ []) (new_client 65535) 0 2 (refl, (refl, (refl, tt)))
      (omega arith) (omega arith) (omega arith) (omega arith) (omega arith)

-- A packet of the broker "x" with a counter.
abbrev of_broker : ℕ → Packet
of_broker n = record (blank Cmd.publish) { broker_id = some (120 ∷ []); broker_counter = n }

passed_test :
    passed (new_client 1) (of_broker 2 ∷ of_broker 2 ∷ of_broker 1 ∷ of_broker 3 ∷ [])
    ≡ of_broker 2 ∷ of_broker 3 ∷ []
unfolding passed dedupe
passed_test = refl

passed-Ascends_example :
    Ascends (120 ∷ []) (passed (new_client 1) (of_broker 2 ∷ of_broker 2 ∷ of_broker 3 ∷ []))
passed-Ascends_example =
    passed-Ascends 120 [] (new_client 1) (of_broker 2 ∷ of_broker 2 ∷ of_broker 3 ∷ [])

drain_run-called_example :
    (called
        (drain_run 10
          ((waits 4 ∷ waits 5 ∷ drains ∷ waits 6 ∷ []) ++ (times_out ∷ []))
          (new_client 1)).0
      ≡ 4 ∷ 5 ∷ 6 ∷ [])
    × ((drain_run 10
          ((waits 4 ∷ waits 5 ∷ drains ∷ waits 6 ∷ []) ++ (times_out ∷ []))
          (new_client 1)).1.pending_drains
        ≡ [])
    × ((drain_run 10
          ((waits 4 ∷ waits 5 ∷ drains ∷ waits 6 ∷ []) ++ (times_out ∷ []))
          (new_client 1)).1.drain_timer
        ≡ false)
drain_run-called_example =
    drain_run-called 10 (omega arith) (waits 4 ∷ waits 5 ∷ drains ∷ waits 6 ∷ []) times_out
      (new_client 1) (ground arith) refl tt

inbox_run-IsBounded_example :
    IsBounded 1
      (inbox_run 1 (readable (connect_packet ∷ p1 ∷ p1 ∷ []) ∷ []) (fresh_inbox (new_client 1)))
inbox_run-IsBounded_example =
    inbox_run-IsBounded 1 (readable (connect_packet ∷ p1 ∷ p1 ∷ []) ∷ [])
      (fresh_inbox (new_client 1)) (omega arith)

inbox_run-handled_example :
    ((inbox_run 42
        (readable (connect_packet ∷ p1 ∷ [])
          ∷ ((pauses ∷ connacks ∷ resumes [] ∷ []) ++ (connects ∷ [])))
        (fresh_inbox (new_client 1))).handled
      ≡ connect_packet ∷ p1 ∷ [])
    × ((inbox_run 42
          (readable (connect_packet ∷ p1 ∷ [])
            ∷ ((pauses ∷ connacks ∷ resumes [] ∷ []) ++ (connects ∷ [])))
          (fresh_inbox (new_client 1))).lost
        ≡ [])
inbox_run-handled_example =
    inbox_run-handled 42 1 connect_packet (p1 ∷ []) (pauses ∷ connacks ∷ resumes [] ∷ [])
      (omega arith) (tt, (tt, (refl, tt)))
