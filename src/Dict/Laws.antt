-- ===== src/Dict/Laws.antt =====
-- Laws of the maps of Dict.antt.
use aedes.Common.{
  ◌≡◌, refl, true, false, [], ◌∷◌, none, some, Text, text_eq, text_eq_iff, if◌then◌else◌, if_both,
  All, arith,
}
use aedes.Dict.{
  builtin, Dict, own, absent, is_inherited, slot, get, insert_new, replace, put, remove, is_some,
  index_before, array_index,
}

module _ {V : Type 0} where
  get-replace :
      (k j : Text) (v : V) (d : Dict V)
      → is_some (get k d) ≡ true
      → get j (replace k v d) ≡ (if text_eq k j then some v else get j d)
  unfolding get replace
  get-replace k j v [] h = cc
  get-replace k j v ((i, w) ∷ d) h =
      ground (arith, text_eq_iff k j, text_eq_iff i k, text_eq_iff i j, get-replace k j v d)

  get-insert_new :
      (k j : Text) (v : V) (d : Dict V)
      → get k d ≡ none
      → get j (insert_new k v d) ≡ (if text_eq k j then some v else get j d)
  unfolding get insert_new
  get-insert_new k j v [] h = refl
  get-insert_new k j v ((i, w) ∷ d) h =
      ground (arith, text_eq_iff k j, text_eq_iff i k, text_eq_iff i j, get-insert_new k j v d)

  pub get-put :
      (k j : Text) (v : V) (d : Dict V)
      → get j (put k v d) ≡ (if text_eq k j then some v else get j d)
  unfolding put
  get-put k j v d = ground (arith, get-replace k j v d, get-insert_new k j v d)

  pub get-remove :
      (k j : Text) (d : Dict V) → get j (remove k d) ≡ (if text_eq k j then none else get j d)
  unfolding get remove
  get-remove k j [] = ground arith
  get-remove k j ((i, w) ∷ d) =
      ground (arith, text_eq_iff k j, text_eq_iff i k, text_eq_iff i j, get-remove k j d)

  pub slot-put :
      (k j : Text) (v : V) (d : Dict V)
      → slot j (put k v d) ≡ (if text_eq k j then own v else slot j d)
  unfolding slot
  slot-put k j v d = ground (arith, get-put k j v d)

  pub slot-own : (k : Text) (v : V) (d : Dict V) → get k d ≡ some v → slot k d ≡ own v
  unfolding slot
  slot-own k v d e = ground arith

  pub slot-absent :
      (k : Text) (d : Dict V) → get k d ≡ none → is_inherited k ≡ false → slot k d ≡ absent
  unfolding slot
  slot-absent k d e plain = rw (e, slot) (rw plain)

  -- A property of all entries is kept when an entry that has it is put.
  module _ (P : Text × V → Type 0) where
    All-replace : (k : Text) (v : V) (d : Dict V) → All P d → P (k, v) → All P (replace k v d)
    unfolding replace
    All-replace k v [] all p = all
    All-replace k v ((j, w) ∷ d) all p =
        if_both (All P) (text_eq j k) (p, all.1) (all.0, All-replace k v d all.1 p)

    All-insert_new : (k : Text) (v : V) (d : Dict V) → All P d → P (k, v) → All P (insert_new k v d)
    unfolding insert_new
    All-insert_new k v [] all p = (p, tt)
    All-insert_new k v ((j, w) ∷ d) all p =
        if_both (All P) (index_before (array_index k) (array_index j)) (p, all)
          (all.0, All-insert_new k v d all.1 p)

    pub All-put : (k : Text) (v : V) (d : Dict V) → All P d → P (k, v) → All P (put k v d)
    unfolding put
    All-put k v d all p =
        if_both (All P) (is_some (get k d)) (All-replace k v d all p) (All-insert_new k v d all p)

  pub get-slot_absent : (k : Text) (d : Dict V) → slot k d ≡ absent → get k d ≡ none
  unfolding slot
  get-slot_absent k d e = ground arith

  pub get-slot_own : (k : Text) (v : V) (d : Dict V) → slot k d ≡ own v → get k d ≡ some v
  unfolding slot
  get-slot_own k v d e = ground arith

  pub inherited-slot_builtin : (k : Text) (d : Dict V) → slot k d ≡ builtin → is_inherited k ≡ true
  unfolding slot
  inherited-slot_builtin k d e = ground arith

  pub get-slot_builtin : (k : Text) (d : Dict V) → slot k d ≡ builtin → get k d ≡ none
  unfolding slot
  get-slot_builtin k d e = ground arith
