-- ===== src/Handlers/Subscribe/Dedupe.antt =====
-- `_dedupe` of lib/handlers/subscribe.js.
use aedes.Common.{
  ◌≡◌, refl, ap, ◌∙◌, List, [], ◌∷◌, Option, none, some, Text, text_eq, map, if◌then◌else◌, All,
}
use aedes.Dict.{Dict, get, put}
use aedes.Dict.Laws.{get-put, All-put}
use aedes.Packet.{Sub}
use aedes.Handlers.Subscription.{dedupe_subs_from, dedupe_subs}

-- The first subscription to a topic in a list, and the last one.
abbrev pub first_to : Text → List Sub → Option Sub
first_to topic [] = none
first_to topic (sub ∷ subs) = if text_eq sub.topic topic then some sub else first_to topic subs

abbrev pub last_or : Option Sub → Text → List Sub → Option Sub
last_or found topic [] = found
last_or found topic (sub ∷ subs) =
    last_or (if text_eq sub.topic topic then some sub else found) topic subs

-- No two subscriptions of the list have one topic.
abbrev pub AreApart : List Sub → Type 0
AreApart [] = Unit {0}
AreApart (sub ∷ subs) = (first_to sub.topic subs ≡ none) × AreApart subs

abbrev IsKeyed : Text × Sub → Type 0
IsKeyed p = p.1.topic ≡ p.0

dedupe_subs_from-get :
    (topic : Text) (d : Dict Sub) (subs : List Sub)
    → get topic (dedupe_subs_from d subs) ≡ last_or (get topic d) topic subs
unfolding dedupe_subs_from
dedupe_subs_from-get topic d [] = refl
dedupe_subs_from-get topic d (sub ∷ subs) =
    dedupe_subs_from-get topic (put sub.topic sub d) subs
    ∙ ap (λ x. last_or x topic subs) (get-put sub.topic topic sub d)

dedupe_subs_from-IsKeyed :
    (d : Dict Sub) (subs : List Sub) → All IsKeyed d → All IsKeyed (dedupe_subs_from d subs)
unfolding dedupe_subs_from
dedupe_subs_from-IsKeyed d [] all = all
dedupe_subs_from-IsKeyed d (sub ∷ subs) all =
    dedupe_subs_from-IsKeyed (put sub.topic sub d) subs (All-put IsKeyed sub.topic sub d all refl)

first_to-get :
    (topic : Text) (d : Dict Sub) → All IsKeyed d → first_to topic (map (λ p. p.1) d) ≡ get topic d
unfolding get
first_to-get topic [] all = refl
first_to-get topic ((k, sub) ∷ d) all =
    ap (λ t. if text_eq t topic then some sub else first_to topic (map (λ p. p.1) d)) all.0
    ∙ ap (λ x. if text_eq k topic then some sub else x) (first_to-get topic d all.1)

-- Of the subscriptions of a SUBSCRIBE, `_dedupe` keeps for each topic the last one, and for a topic
-- without a subscription none.
pub dedupe_subs-last :
    (topic : Text) (subs : List Sub) → first_to topic (dedupe_subs subs) ≡ last_or none topic subs
unfolding dedupe_subs get
dedupe_subs-last topic subs =
    first_to-get topic (dedupe_subs_from [] subs) (dedupe_subs_from-IsKeyed [] subs tt)
    ∙ dedupe_subs_from-get topic [] subs
