-- ===== src/Session/Duplicates.antt =====
-- lib/client.js: `dedupe`, which lets a packet of a broker through once.
use mathlib.Core.Path.{subst}
use aedes.Common.{
  ℕ, ◌<◌, ◌≡◌, sym, Bool, true, false, List, [], ◌∷◌, Option, none, some, Text, text_eq,
  text_eq_iff, ltb, if◌then◌else◌, All, arith, text_eq_refl, Bool-cases, Option-cases, ◌↔◌, inl,
  inr,
}
use aedes.Dict.{Dict, Slot, absent, builtin, own, slot, get, put, is_inherited}
use aedes.Dict.Laws.{slot-put, slot-own, slot-absent}
use aedes.Packet.{Packet}
use aedes.World.{Client}

-- `(duplicates[id] || 0) < counter`; a member of `Object.prototype` is a function or an object, and
-- the comparison with it is false.
abbrev is_newer : Slot ℕ → ℕ → Bool
is_newer absent counter = ltb 0 counter
is_newer builtin counter = false
is_newer (own last) counter = ltb last counter

dedupe_id : Option Text → Client → Packet → Bool × Client
dedupe_id none client packet = (true, client)
dedupe_id (some []) client packet = (true, client)
dedupe_id (some (c ∷ cs)) client packet =
    if is_newer (slot (c ∷ cs) client.duplicates) packet.broker_counter
    then (true, record client { duplicates = put (c ∷ cs) packet.broker_counter client.duplicates })
    else (false, client)

unfoldable pub dedupe : Client → Packet → Bool × Client
unfolding dedupe_id slot put
dedupe client packet = dedupe_id packet.broker_id client packet

-- The packets that pass, of those that arrive one after the other.
unfoldable pub passed : Client → List Packet → List Packet
passed client [] = []
passed client (p ∷ ps) =
    let (fresh, client') = dedupe client p in
    let rest = passed client' ps in if fresh then p ∷ rest else rest

-- The packet is of the broker `id` and newer than all before it.
abbrev pub IsAfter : Text → ℕ → Packet → Type 0
IsAfter id last p = p.broker_id ≡ some id → last < p.broker_counter

-- The counters of the packets of one broker ascend along the list.
abbrev pub Ascends : Text → List Packet → Type 0
Ascends id [] = Unit
Ascends id (p ∷ ps) = (p.broker_id ≡ some id → All (IsAfter id p.broker_counter) ps) × Ascends id ps

-- No packet passes of the broker `id` with a counter up to `n`.
abbrev Above : Text → ℕ → Dict ℕ → Type 0
Above id n d = (k : ℕ) → is_newer (slot id d) k ≡ true → n < k

is_newer_trans :
    (s : Slot ℕ) (a b : ℕ) → is_newer s a ≡ true → is_newer (own a) b ≡ true → is_newer s b ≡ true
is_newer_trans s a b h k = ground arith

Above-put :
    (id j : Text) (n a : ℕ) (d : Dict ℕ)
    → is_newer (slot j d) a ≡ true
    → Above id n d
    → Above id n (put j a d)
Above-put id j n a d newer h k e = elim (Bool-cases (text_eq j id)) [
  | inl same ↦
      let e' : is_newer (own a) k ≡ true = rw (slot-put j id a d, same) at e in
      let newer' : is_newer (slot id d) a ≡ true =
        subst (λ t. is_newer (slot t d) a ≡ true) ((text_eq_iff j id).0 same) newer in
      h k (is_newer_trans (slot id d) a k newer' e')
  | inr other ↦ h k (rw (slot-put j id a d, other) at e)
]

Above-put_self : (id : Text) (a : ℕ) (d : Dict ℕ) → Above id a (put id a d)
Above-put_self id a d k e =
    let e' : is_newer (own a) k ≡ true = rw (slot-put id id a d, text_eq_refl id) at e in
    ground arith

-- What one packet does to the bound of a broker.
dedupe_id-Above :
    (id : Text) (n : ℕ) (b : Option Text) (client : Client) (p : Packet)
    → Above id n client.duplicates
    → Above id n (dedupe_id b client p).1.duplicates
unfolding dedupe_id
dedupe_id-Above id n none client p h = h
dedupe_id-Above id n (some []) client p h = h
dedupe_id-Above id n (some (c ∷ cs)) client p h =
    elim (Bool-cases (is_newer (slot (c ∷ cs) client.duplicates) p.broker_counter)) [
      | inl e ↦ rw (e, dedupe_id) (Above-put id (c ∷ cs) n p.broker_counter client.duplicates e h)
      | inr e ↦ rw (e, dedupe_id) h
    ]

abbrev pub or_zero : Option ℕ → ℕ
or_zero none = 0
or_zero (some n) = n

module _ (c : ℕ) (cs : Text) where
  -- A packet of the broker that passes is above the bound, and becomes the bound.
  dedupe_id-passes :
      (n : ℕ) (client : Client) (p : Packet)
      → Above (c ∷ cs) n client.duplicates
      → (dedupe_id (some (c ∷ cs)) client p).0 ≡ true
      → n < p.broker_counter
  unfolding dedupe_id
  dedupe_id-passes n client p h e = h p.broker_counter (ground arith)

  dedupe_id_self :
      (client : Client) (p : Packet)
      → (dedupe_id (some (c ∷ cs)) client p).0 ≡ true
      → Above (c ∷ cs) p.broker_counter (dedupe_id (some (c ∷ cs)) client p).1.duplicates
  unfolding dedupe_id
  dedupe_id_self client p e =
      let q : is_newer (slot (c ∷ cs) client.duplicates) p.broker_counter ≡ true = ground arith in
      rw (q, dedupe_id) (Above-put_self (c ∷ cs) p.broker_counter client.duplicates)

  dedupe_id_iff :
      (client : Client) (p : Packet)
      → is_inherited (c ∷ cs) ≡ false
      → ((dedupe_id (some (c ∷ cs)) client p).0 ≡ true)
        ↔ (or_zero (get (c ∷ cs) client.duplicates) < p.broker_counter)
  unfolding dedupe_id
  dedupe_id_iff client p plain = elim (Option-cases (get (c ∷ cs) client.duplicates)) [
    | inl unseen ↦ rw (unseen, slot-absent (c ∷ cs) client.duplicates unseen plain) (ground arith)
    | inr (m, last) ↦ rw (last, slot-own (c ∷ cs) m client.duplicates last) (ground arith)
  ]

  passed-All :
      (n : ℕ) (client : Client) (ps : List Packet)
      → Above (c ∷ cs) n client.duplicates
      → All (IsAfter (c ∷ cs) n) (passed client ps)
  unfolding passed dedupe
  passed-All n client [] h = tt
  passed-All n client (p ∷ ps) h =
      let later =
        passed-All n (dedupe client p).1 ps (dedupe_id-Above (c ∷ cs) n p.broker_id client p h) in
      elim (Bool-cases (dedupe client p).0) [
        | inl e ↦ rw e (
          λ q. (dedupe_id-passes n client p h (subst (λ b. (dedupe_id b client p).0 ≡ true) q e)),
          later,
        )
        | inr e ↦ rw e later
      ]

  -- Whatever packets arrive, the counters of those of one broker that pass ascend strictly: a
  -- packet passes once, and none passes behind a newer one. (The broker's id is not empty.)
  pub passed-Ascends : (client : Client) (ps : List Packet) → Ascends (c ∷ cs) (passed client ps)
  unfolding passed dedupe
  passed-Ascends client [] = tt
  passed-Ascends client (p ∷ ps) =
      let later = passed-Ascends (dedupe client p).1 ps in
      elim (Bool-cases (dedupe client p).0) [
        | inl e ↦ rw e (
          λ q.
              let e' = subst (λ b. (dedupe_id b client p).0 ≡ true) q e in
              passed-All p.broker_counter (dedupe client p).1 ps (
                subst (λ b. Above (c ∷ cs) p.broker_counter (dedupe_id b client p).1.duplicates)
                  (sym q) (dedupe_id_self client p e')),
          later,
        )
        | inr e ↦ rw e later
      ]

  -- A packet of a broker whose id is no name of `Object.prototype` passes exactly when its counter
  -- is above the last that passed, or above 0 if none did.
  pub dedupe_iff :
      (client : Client) (p : Packet)
      → p.broker_id ≡ some (c ∷ cs)
      → is_inherited (c ∷ cs) ≡ false
      → ((dedupe client p).0 ≡ true) ↔ (or_zero (get (c ∷ cs) client.duplicates) < p.broker_counter)
  unfolding dedupe
  dedupe_iff client p e plain = rw e (dedupe_id_iff client p plain)
