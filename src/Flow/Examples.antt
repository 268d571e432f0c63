-- ===== src/Flow/Examples.antt =====
-- Tests of the combinators of lib/utils.js, and their theorems at concrete inputs.
use mathlib.Core.List.{flatten}
use aedes.Common.{ℕ, ◌+◌, ◌≡◌, List, [], ◌∷◌, Option, none, some, map, arith}
use aedes.Errors.{Error, external}
use aedes.Flow.{launch, complete_all, batch}
use aedes.Flow.Callbacks.{complete_all-launch}
use aedes.Flow.Batches.{AreChunks, batch-AreChunks}

abbrev results : List (Option Error)
results = none ∷ some (external 1) ∷ some (external 2) ∷ none ∷ []

complete_all-launch_example : (complete_all (launch 3) results).calls ≡ some (external 1) ∷ []
complete_all-launch_example = complete_all-launch 3 results

abbrev five : List ℕ
five = 1 ∷ 2 ∷ 3 ∷ 4 ∷ 5 ∷ []

batch-AreChunks_example :
    (flatten (batch (λ x. x + 1) 2 five) ≡ map (λ x. x + 1) five)
    × AreChunks 2 (batch (λ x. x + 1) 2 five)
batch-AreChunks_example = batch-AreChunks (λ x. x + 1) 2 five (omega arith)
