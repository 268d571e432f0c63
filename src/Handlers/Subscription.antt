-- ===== src/Handlers/Subscription.antt =====
-- lib/handlers/subscribe.js: the data of SUBSCRIBE: `SubAck`, `_dedupe`, and the `Subscription` that a
-- client keeps for a topic.
use aedes.Common.{
  ℕ, Bool, true, false, not, ◌&&◌, ◌||◌, List, [], ◌∷◌, Option, none, some, Text, map, ltb, ◌==◌,
}
use aedes.Dict.{Dict, put}
use aedes.Topic.{plus, hash}
use aedes.Packet.{Cmd, Packet, Sub, blank}
use aedes.World.{Subscription}

-- `new SubAck(packet, granted)`
abbrev pub sub_ack : Packet → List ℕ → Packet
sub_ack packet granted = record (blank Cmd.suback) {
  message_id = packet.message_id;
  granted = granted;
}

-- `_dedupe(subs)`
unfoldable pub dedupe_subs_from : Dict Sub → List Sub → Dict Sub
dedupe_subs_from d [] = d
dedupe_subs_from d (sub ∷ subs) = dedupe_subs_from (put sub.topic sub d) subs

unfoldable pub dedupe_subs : List Sub → List Sub
unfolding dedupe_subs_from
dedupe_subs subs = map (λ p. p.1) (dedupe_subs_from [] subs)

abbrev is_true : Option Bool → Bool
is_true none = false
is_true (some b) = b

abbrev same_number : Option ℕ → Option ℕ → Bool
same_number none none = true
same_number none (some _) = false
same_number (some _) none = false
same_number (some a) (some b) = a == b

abbrev same_flag : Option Bool → Option Bool → Bool
same_flag none none = true
same_flag none (some _) = false
same_flag (some _) none = false
same_flag (some a) (some b) = (a && b) || (not a && not b)

-- The test of `addSubs` on a subscription that is there.
unfoldable pub same_subscription : Subscription → Subscription → Bool
same_subscription a b =
    a.qos == b.qos && (same_number a.rh b.rh && (same_flag a.rap b.rap && same_flag a.nl b.nl))

is_starts_with_wildcard : Text → Bool
is_starts_with_wildcard [] = false
is_starts_with_wildcard (c ∷ cs) = c == plus || c == hash

-- `new Subscription(qos, func, rh, rap, nl)`: the QoS and the topic of the subscription that the
-- hook passed on, and the options of the one in the packet.
unfoldable pub subscription_of : Sub → Sub → Subscription
unfolding is_starts_with_wildcard
subscription_of original sub = record {
  qos = sub.qos;
  func = record {
    with_qos = ltb 0 sub.qos;
    nl = is_true original.nl;
    rap = is_true original.rap;
    block_dollar = is_starts_with_wildcard sub.topic;
  };
  rh = original.rh;
  rap = original.rap;
  nl = original.nl;
}
