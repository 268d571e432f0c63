-- ===== src/Flow/Callbacks.antt =====
-- The calls that `runParallel` and `once` of lib/utils.js make of what they are given.
use aedes.Common.{
  ℕ, zero, suc, ◌≡◌, refl, ap, ◌∙◌, true, false, List, [], ◌∷◌, Option, none, some, arith,
}
use aedes.Errors.{Error}
use aedes.Flow.{Parallel, launch, parallel_callback, complete_all, Once, once_call, once_all}

-- What `n` items that complete with these results, in this order, make of the whole: an error
-- ends it at once, and success takes a callback of every item; there may be callbacks too few or
-- too many.
abbrev pub verdict : ℕ → List (Option Error) → List (Option Error)
verdict zero rs = none ∷ []
verdict (suc n) [] = []
verdict (suc n) (some e ∷ rs) = some e ∷ []
verdict (suc n) (none ∷ rs) = verdict n rs

complete_all_finished :
    (p : Parallel) (rs : List (Option Error))
    → p.finished ≡ true
    → (complete_all p rs).calls ≡ p.calls
unfolding complete_all parallel_callback
complete_all_finished p [] h = refl
complete_all_finished p (none ∷ rs) h = simp h (complete_all_finished p rs h)
complete_all_finished p (some e ∷ rs) h = simp h (complete_all_finished p rs h)

once_all_called :
    (o : Once) (es : List (Option Error)) → o.called ≡ true → (once_all o es).passed ≡ o.passed
unfolding once_all once_call
once_all_called o [] h = refl
once_all_called o (e ∷ es) h = simp h (once_all_called o es h)

abbrev pub running : ℕ → Parallel
running n = record { remaining = n; finished = false; calls = [] }

pub parallel_callback-running :
    (n : ℕ) → parallel_callback none (running (suc (suc n))) ≡ running (suc n)
unfolding parallel_callback
parallel_callback-running n = ground arith

complete_all-running :
    (n : ℕ) (rs : List (Option Error))
    → (complete_all (running (suc n)) rs).calls ≡ verdict (suc n) rs
unfolding complete_all
complete_all-running n [] = refl
complete_all-running n (some e ∷ rs) = unfold parallel_callback in complete_all_finished _ rs refl
complete_all-running zero (none ∷ rs) = unfold parallel_callback in complete_all_finished _ rs refl
complete_all-running (suc n) (none ∷ rs) =
    ap (λ q. (complete_all q rs).calls) (parallel_callback-running n) ∙ complete_all-running n rs

-- Whatever the results of the items and the order in which they complete, and however many
-- callbacks come, the calls of `done` by `runParallel` are those of `verdict`: one call with the
-- first error among the first `n` callbacks, or one call with no error once all `n` came without,
-- and none before that; with no items, one call at once.
pub complete_all-launch :
    (n : ℕ) (rs : List (Option Error)) → (complete_all (launch n) rs).calls ≡ verdict n rs
unfolding launch
complete_all-launch zero rs = complete_all_finished _ rs refl
complete_all-launch (suc n) rs = complete_all-running n rs

-- `once` passes the first call on, with its argument, and no other.
pub once_all-calls :
    (e : Option Error) (es : List (Option Error))
    → (once_all (record { called = false; passed = [] }) (e ∷ es)).passed ≡ e ∷ []
unfolding once_all once_call
once_all-calls e es = once_all_called _ es refl
