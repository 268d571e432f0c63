-- ===== src/Session/MessageIds.antt =====
-- lib/qos-packet.js: the message ids that a client hands out.
use aedes.Common.{
  ℕ, zero, suc, ◌+◌, ◌-◌, ◌%◌, ◌≤◌, ◌<◌, ◌≡◌, ◌≢◌, List, [], ◌∷◌, Option, none, some, leb,
  get_elem?, length, All, some_inj, sym, ap, ◌∙◌, ◌==◌, if◌then◌else◌, arith,
}
use aedes.Packet.{Packet}
use aedes.World.{Client}

-- The increment of `_nextId`.
abbrev pub next : ℕ → ℕ
next id = if leb 65535 id then 1 else id + 1

-- `original.messageId`, if it is set and not 0.
abbrev given_id : Option ℕ → Option ℕ
given_id none = none
given_id (some n) = if n == 0 then none else some n

-- The constructor of QoSPacket, after that of Packet: `original` decides whether a new id is taken,
-- `packet` is what the constructor of Packet made of it.
unfoldable pub assign_id : Packet → Packet → Client → Packet × Client
assign_id original packet client = elim (given_id original.message_id) [
  | none ↦ (
    record packet { message_id = some client.next_id },
    record client { next_id = next client.next_id },
  )
  | some n ↦ (record packet { message_id = some n }, client)
]

-- Packets without an id, one after the other: the ids that they get.
unfoldable pub assigned_ids : List Packet → Client → List (Option ℕ)
unfolding assign_id
assigned_ids [] client = []
assigned_ids (p ∷ ps) client =
    let (q, client') = assign_id p p client in q.message_id ∷ assigned_ids ps client'

abbrev pub AreNew : List Packet → Type 0
AreNew = All (λ p. p.message_id ≡ none)

-- The id that is handed out after `k` others, when the first is `s`.
abbrev nth_id : ℕ → ℕ → ℕ
nth_id s k = (s - 1 + k) % 65535 + 1

nth_id-next : (s k : ℕ) → 1 ≤ s → s ≤ 65535 → nth_id (next s) k ≡ nth_id s (suc k)
nth_id-next s k h1 h2 = ground arith

next_bounds : (s : ℕ) → s ≤ 65535 → (1 ≤ next s) × (next s ≤ 65535)
next_bounds s h = ground arith

-- A client whose counter starts between 1 and 65535 gives packets that come without an id the
-- numbers from there on, with 1 after 65535.
assigned_ids-nth :
    (ps : List Packet) (client : Client) (k : ℕ)
    → AreNew ps
    → 1 ≤ client.next_id
    → client.next_id ≤ 65535
    → k < length ps
    → get_elem? (assigned_ids ps client) k ≡ some (some (nth_id client.next_id k))
unfolding assigned_ids
assigned_ids-nth [] client k new h1 h2 h3 = absurd (omega arith)
assigned_ids-nth (p ∷ ps) client zero new h1 h2 h3 =
    let e : nth_id client.next_id 0 ≡ client.next_id = omega arith in rw (new.0, e)
assigned_ids-nth (p ∷ ps) client (suc k) new h1 h2 h3 =
    let (b1, b2) = next_bounds client.next_id h2 in
    rw new.0 (
      assigned_ids-nth ps (record client { next_id = next client.next_id }) k new.1 b1 b2
        (omega arith)
      ∙ ap (λ (n : ℕ). some (some n)) (nth_id-next client.next_id k h1 h2))

-- Of any 65535 ids that such a client hands out in a row no two are equal, and each lies between
-- 1 and 65535.
pub assigned_ids-ne :
    (ps : List Packet) (client : Client) (j k : ℕ)
    → AreNew ps
    → 1 ≤ client.next_id
    → client.next_id ≤ 65535
    → j < k
    → k < j + 65535
    → k < length ps
    → (get_elem? (assigned_ids ps client) j ≢ get_elem? (assigned_ids ps client) k)
      × ((n : ℕ) × (get_elem? (assigned_ids ps client) k ≡ some (some n)) × (1 ≤ n) × (n ≤ 65535))
assigned_ids-ne ps client j k new h1 h2 lt window inside =
    let at_j = assigned_ids-nth ps client j new h1 h2 (omega arith) in
    let at_k = assigned_ids-nth ps client k new h1 h2 inside in
    (
      λ e.
          let same : nth_id client.next_id j ≡ nth_id client.next_id k =
            some_inj (some_inj (sym at_j ∙ e ∙ at_k)) in
          absurd (omega arith),
      (nth_id client.next_id k, at_k, omega arith, omega arith),
    )

-- A counter that starts at 0, which `Math.ceil(Math.random() * 65535)` can give, hands out the id
-- 0, which MQTT forbids ([MQTT-2.3.1-1]), to the first packet that comes without one.
pub assigned_ids_zero :
    (p : Packet) (ps : List Packet) (client : Client)
    → p.message_id ≡ none
    → client.next_id ≡ 0
    → get_elem? (assigned_ids (p ∷ ps) client) 0 ≡ some (some 0)
unfolding assigned_ids
assigned_ids_zero p ps client new start = ground arith
