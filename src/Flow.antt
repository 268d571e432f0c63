-- ===== src/Flow.antt =====
-- lib/utils.js: the callback combinators `runParallel` and `once`, and the generator `batch`.
-- (`runSeries` and `runFall` are in Run.antt, beside the outcomes of callbacks.)
pub mod Callbacks
pub mod Counting
pub mod Batches
pub mod Sequential
mod Examples
use aedes.Common.{
  ℕ, zero, suc, ◌-◌, Bool, true, false, List, [], ◌∷◌, ◌++◌, Option, none, some, ltb, length, ◌==◌,
  if◌then◌else◌,
}
use aedes.Errors.{Error}

-- The variables of `runParallel`, and the arguments of the calls of its `done` so far, the first
-- call first; `none` is a call with no error.
pub record Parallel : Type 0 where
  pub remaining : ℕ
  pub finished : Bool
  pub calls : List (Option Error)

-- The call of `runParallel` on so many items, before any callback. With no items it calls `done`
-- and returns before `cb` exists: nothing that comes later counts, as when it has finished.
pub launch : ℕ → Parallel
launch zero = record { remaining = 0; finished = true; calls = none ∷ [] }
launch (suc n) = record { remaining = suc n; finished = false; calls = [] }

-- `cb(err)`
pub parallel_callback : Option Error → Parallel → Parallel
parallel_callback (some e) p =
    if p.finished then p else record p { finished = true; calls = p.calls ++ (some e ∷ []) }
parallel_callback none p =
    if p.finished
    then p
    else if p.remaining - 1 == 0
    then record p { remaining = 0; finished = true; calls = p.calls ++ (none ∷ []) }
    else record p { remaining = p.remaining - 1 }

-- The callbacks in the order in which the items complete.
unfoldable pub complete_all : Parallel → List (Option Error) → Parallel
complete_all p [] = p
complete_all p (r ∷ rs) = complete_all (parallel_callback r p) rs

-- `once(fn)`: `called`, and the arguments with which `fn` was called.
pub record Once : Type 0 where
  pub called : Bool
  pub passed : List (Option Error)

pub once_call : Option Error → Once → Once
once_call e o = if o.called then o else record { called = true; passed = o.passed ++ (e ∷ []) }

pub once_all : Once → List (Option Error) → Once
once_all o [] = o
once_all o (e ∷ es) = once_all (once_call e o) es

-- The loop of `batch`: the chunk that is being filled, then what the readable still gives. The
-- result is the list of the arrays that the generator yields.
module _ {ℓ κ} {A : Type ℓ} {B : Type κ} (fn : A → B) (batch_size : ℕ) where
  batch_from : List B → List A → List (List B)
  batch_from chunks [] = if ltb 0 (length chunks) then chunks ∷ [] else []
  batch_from chunks (a ∷ as') =
      let chunks' = chunks ++ (fn a ∷ []) in
      let full = batch_from [] as' in
      let more = batch_from chunks' as' in
      if length chunks' == batch_size then chunks' ∷ full else more

  pub batch : List A → List (List B)
  unfolding batch_from
  batch readable = batch_from [] readable
