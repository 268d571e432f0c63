-- ===== src/Dict.antt =====
-- JavaScript objects used as maps (`clients`, `brokers`, `subscriptions`, `duplicates`,
-- `dedupeSubs`): own properties in the order in which the language enumerates them, and the
-- properties that every object inherits. (An assignment to the key "__proto__", which sets the
-- prototype and no property, is not modelled: `put` makes it a property.)
pub mod Laws
use aedes.Common.{
  ℕ, ◌+◌, ◌-◌, ◌*◌, ◌^◌, Bool, true, false, ◌&&◌, ◌||◌, List, [], ◌∷◌, Option, none, some, Text,
  codes, text_eq, any, ltb, leb, ◌==◌, if◌then◌else◌, length, map,
}

-- The own properties, in the order of `Object.keys`.
abbrev pub Dict : Type 0 → Type 0
Dict V = List (Text × V)

-- The names that `Object.prototype` has; a look-up of one of them never gives `undefined`.
abbrev prototype_names : List Text
prototype_names =
    codes "constructor"
    ∷ codes "__defineGetter__"
    ∷ codes "__defineSetter__"
    ∷ codes "hasOwnProperty"
    ∷ codes "__lookupGetter__"
    ∷ codes "__lookupSetter__"
    ∷ codes "isPrototypeOf"
    ∷ codes "propertyIsEnumerable"
    ∷ codes "toString"
    ∷ codes "valueOf"
    ∷ codes "__proto__"
    ∷ codes "toLocaleString"
    ∷ []

unfoldable pub is_inherited : Text → Bool
unfolding text_eq
is_inherited key = any (text_eq key) prototype_names

-- The value of a decimal digit string, from the digits read so far.
digits_value : ℕ → Text → Option ℕ
digits_value n [] = some n
digits_value n (c ∷ cs) =
    let rest = digits_value (n * 10 + (c - b'0')) cs in
    if leb b'0' c && leb c b'9' then rest else none

-- An integer index: "0", or digits without a leading zero, below 2^32 - 1. Such keys come first in
-- an object, in ascending order.
array_index : Text → Option ℕ
unfolding digits_value
array_index [] = none
array_index (c ∷ cs) = elim (digits_value 0 (c ∷ cs)) [
  | none ↦ none
  | some n ↦ if (c == b'0' && ltb 0 (length cs)) || leb (2 ^ 32 - 1) n then none else some n
]

abbrev index_before : Option ℕ → Option ℕ → Bool
index_before none j = false
index_before (some i) none = true
index_before (some i) (some j) = ltb i j

module _ {V : Type 0} where
  -- An own property; `none` if there is none.
  unfoldable pub get : Text → Dict V → Option V
  get k [] = none
  get k ((j, v) ∷ d) = if text_eq j k then some v else get k d

  -- A new property in its place.
  insert_new : Text → V → Dict V → Dict V
  insert_new k v [] = (k, v) ∷ []
  insert_new k v ((j, w) ∷ d) =
      if index_before (array_index k) (array_index j)
      then (k, v) ∷ (j, w) ∷ d
      else (j, w) ∷ insert_new k v d

  replace : Text → V → Dict V → Dict V
  replace k v [] = []
  replace k v ((j, w) ∷ d) = if text_eq j k then (k, v) ∷ d else (j, w) ∷ replace k v d

  abbrev is_some : Option V → Bool
  is_some none = false
  is_some (some _) = true

  -- `d[k] = v`
  unfoldable pub put : Text → V → Dict V → Dict V
  unfolding get insert_new replace array_index text_eq
  put k v d = if is_some (get k d) then replace k v d else insert_new k v d

  -- `delete d[k]`
  unfoldable pub remove : Text → Dict V → Dict V
  remove k [] = []
  remove k ((j, v) ∷ d) = if text_eq j k then remove k d else (j, v) ∷ remove k d

  abbrev pub keys : Dict V → List Text
  keys d = map (λ p. p.0) d

-- What a look-up `d[k]` gives: nothing, a member of `Object.prototype`, or an own property. The
-- last two are truthy.
pub data Slot (V : Type 0) : Type 0 where
  absent builtin : Slot V
  own : V → Slot V

unfoldable pub slot : {V : Type 0} → Text → Dict V → Slot V
unfolding is_inherited get text_eq
slot k d = elim (get k d) [ some v ↦ own v | none ↦ if is_inherited k then builtin else absent ]
