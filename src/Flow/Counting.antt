-- ===== src/Flow/Counting.antt =====
-- `runParallel` of lib/utils.js, step by step: what its variables say about its items.
use mathlib.Core.Path.{subst}
use aedes.Common.{
  ℕ, zero, suc, ◌+◌, ◌≤◌, ◌<◌, ◌≡◌, ◌↔◌, refl, sym, ◌∙◌, true, List, [], ◌∷◌, Option, none, some,
  arith,
}
use aedes.Errors.{Error}
use aedes.Flow.{Parallel, launch, parallel_callback, complete_all}
use aedes.Flow.Callbacks.{running, parallel_callback-running}

-- What a step that calls back like this does to the two numbers.
pub data Step (n b n' b' : ℕ) : List (Option Error) → Type 0 where
  quiet : n' ≡ n → b' ≡ b → Step n b n' b' []
  ends : n ≡ suc n' → b' ≡ b → Step n b n' b' (none ∷ [])
  breaks : (e : Error) → n' ≡ n → b' ≡ suc b → Step n b n' b' (some e ∷ [])

pub add-Step :
    (n b n' b' k l : ℕ) (calls : List (Option Error))
    → Step n b n' b' calls
    → Step (n + k) (b + l) (n' + k) (b' + l) calls
add-Step n b n' b' k l calls (quiet p q) = quiet (omega arith) (omega arith)
add-Step n b n' b' k l calls (ends p q) = ends (omega arith) (omega arith)
add-Step n b n' b' k l calls (breaks e p q) = breaks e (omega arith) (omega arith)

pub on-Step :
    (n b n' b' k l : ℕ) (calls : List (Option Error))
    → Step n b n' b' calls
    → Step (k + n) (l + b) (k + n') (l + b') calls
on-Step n b n' b' k l calls (quiet p q) = quiet (omega arith) (omega arith)
on-Step n b n' b' k l calls (ends p q) = ends (omega arith) (omega arith)
on-Step n b n' b' k l calls (breaks e p q) = breaks e (omega arith) (omega arith)

-- `runParallel` as it is when so many topics wait and so many have failed.
pub data Counts (n b : ℕ) : Parallel → Type 0 where
  waiting : (m : ℕ) → n ≡ suc m → b ≡ 0 → Counts n b (running (suc m))
  complete :
      n ≡ 0 → b ≡ 0 → Counts n b (record { remaining = 0; finished = true; calls = none ∷ [] })
  broken :
      (k : ℕ) (e : Error)
      → 0 < b
      → Counts n b (record { remaining = k; finished = true; calls = some e ∷ [] })

pub Step-Counts :
    (n b n' b' : ℕ) (calls : List (Option Error)) (p : Parallel)
    → Step n b n' b' calls
    → Counts n b p
    → b' ≤ n'
    → Counts n' b' (complete_all p calls)
unfolding complete_all parallel_callback
Step-Counts n b n' b' calls p (quiet q r) (waiting m s t) le = waiting m (q ∙ s) (r ∙ t)
Step-Counts n b n' b' calls p (quiet q r) (complete s t) le = complete (q ∙ s) (r ∙ t)
Step-Counts n b n' b' calls p (quiet q r) (broken k e t) le = broken k e (omega arith)
Step-Counts n b n' b' calls p (ends q r) (waiting zero s t) le = complete (omega arith) (r ∙ t)
Step-Counts n b n' b' calls p (ends q r) (waiting (suc m) s t) le =
    subst (Counts n' b') (sym (parallel_callback-running m)) (waiting m (omega arith) (r ∙ t))
Step-Counts n b n' b' calls p (ends q r) (complete s t) le = absurd (omega arith)
Step-Counts n b n' b' calls p (ends q r) (broken k e t) le = broken k e (omega arith)
Step-Counts n b n' b' calls p (breaks e q r) (waiting m s t) le = broken (suc m) e (omega arith)
Step-Counts n b n' b' calls p (breaks e q r) (complete s t) le = absurd (omega arith)
Step-Counts n b n' b' calls p (breaks e' q r) (broken k e t) le = broken k e (omega arith)

pub Counts-calls : (n b : ℕ) (p : Parallel) → b ≤ n → Counts n b p → p.calls ≡ none ∷ [] ↔ n ≡ 0
Counts-calls n b p le (waiting m s t) = ((λ e. cc), λ e. absurd (omega arith))
Counts-calls n b p le (complete s t) = ((λ e. s), λ e. refl)
Counts-calls n b p le (broken k x t) = ((λ e. cc), λ e. absurd (omega arith))

pub launch-Counts : (n : ℕ) → Counts n 0 (launch n)
unfolding launch
launch-Counts zero = complete refl refl
launch-Counts (suc n) = waiting n refl refl
