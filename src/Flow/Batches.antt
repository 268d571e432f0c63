-- ===== src/Flow/Batches.antt =====
-- What `batch` of lib/utils.js yields.
use mathlib.Core.List.{flatten, append_assoc}
use aedes.Common.{
  ℕ, ◌≤◌, ◌<◌, ◌≡◌, refl, ap, ◌∙◌, true, List, [], ◌∷◌, ◌++◌, map, ltb, length, ◌==◌, Bool-cases,
  arith, inl, inr, length-append, ==_iff,
}
use aedes.Flow.{batch_from, batch}

-- The chunks have the size, but that the last may be shorter and is not empty.
abbrev pub AreChunks {ℓ} : {A : Type ℓ} → ℕ → List (List A) → Type 0
AreChunks size [] = Unit
AreChunks size (c ∷ []) = (0 < length c) × (length c ≤ size)
AreChunks size (c ∷ d ∷ ds) = (length c ≡ size) × AreChunks size (d ∷ ds)

AreChunks-cons {ℓ} :
    {A : Type ℓ} (size : ℕ) (c : List A) (ds : List (List A))
    → 0 < size
    → length c ≡ size
    → AreChunks size ds
    → AreChunks size (c ∷ ds)
AreChunks-cons size c [] h e k = omega arith
AreChunks-cons size c (d ∷ ds) h e k = (e, k)

module _ {ℓ κ} {A : Type ℓ} {B : Type κ} (fn : A → B) (size : ℕ) where
  batch_from-flatten :
      (chunks : List B) (xs : List A) → flatten (batch_from fn size chunks xs) ≡ chunks ++ map fn xs
  unfolding batch_from flatten
  batch_from-flatten [] [] = refl
  batch_from-flatten (c ∷ chunks) [] =
      let e : ltb 0 (length (c ∷ chunks)) ≡ true = ground arith in rw e
  batch_from-flatten chunks (x ∷ xs) = elim (Bool-cases (length (chunks ++ (fn x ∷ [])) == size)) [
    | inl e ↦ rw e (
        ap (◌++◌ (chunks ++ (fn x ∷ []))) (batch_from-flatten [] xs)
        ∙ append_assoc chunks (fn x ∷ []) (map fn xs))
    | inr e ↦ rw e (
        batch_from-flatten (chunks ++ (fn x ∷ [])) xs ∙ append_assoc chunks (fn x ∷ []) (map fn xs))
  ]

  batch_from-AreChunks :
      (chunks : List B) (xs : List A)
      → length chunks < size
      → AreChunks size (batch_from fn size chunks xs)
  unfolding batch_from
  batch_from-AreChunks chunks [] h = ground arith
  batch_from-AreChunks chunks (x ∷ xs) h =
      elim (Bool-cases (length (chunks ++ (fn x ∷ [])) == size)) [
        | inl e ↦ rw e (
            AreChunks-cons size _ _ (omega arith) ((==_iff _ _).0 e)
              (batch_from-AreChunks [] xs (omega arith)))
        | inr e ↦ rw e (
            batch_from-AreChunks (chunks ++ (fn x ∷ [])) xs
              (ground (arith, length-append chunks (fn x ∷ []))))
      ]

  -- The batches put together are the results of `fn` on the readable's items, in its order; with a
  -- positive size every batch has that size, but that the last may be shorter and is not empty.
  pub batch-AreChunks :
      (xs : List A)
      → 0 < size
      → (flatten (batch fn size xs) ≡ map fn xs) × AreChunks size (batch fn size xs)
  unfolding batch
  batch-AreChunks xs h = (batch_from-flatten [] xs, batch_from-AreChunks [] xs h)
