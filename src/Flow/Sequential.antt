-- ===== src/Flow/Sequential.antt =====
-- `runParallel` of lib/utils.js, when its items complete one after the other.
use aedes.Common.{
  ℕ, zero, suc, ◌<◌, ◌≡◌, refl, sym, ap, ◌∙◌, List, [], ◌∷◌, ◌++◌, Option, none, some, length,
  arith,
}
use aedes.Errors.{Error}
use aedes.Run.{Outcome, done, fail, silent, both}
use aedes.Flow.{Parallel, launch, parallel_callback, complete_all}
use aedes.Flow.Callbacks.{verdict, complete_all-launch}

-- The callback that an outcome makes, if any.
abbrev pub calls_of : Outcome (Unit {0}) → List (Option Error)
calls_of (done _) = none ∷ []
calls_of (fail e) = some e ∷ []
calls_of silent = []

abbrev pub all_calls : List (Outcome (Unit {0})) → List (Option Error)
all_calls [] = []
all_calls (r ∷ rs) = calls_of r ++ all_calls rs

abbrev pub all_of : List (Outcome (Unit {0})) → Outcome (Unit {0})
all_of [] = done tt
all_of (r ∷ rs) = both r (all_of rs)

silent_twice : (r : Outcome (Unit {0})) → both silent (both silent r) ≡ both silent r
silent_twice (done x) = refl
silent_twice (fail e) = refl
silent_twice silent = refl

-- With fewer callbacks than items there is no call but that of an error.
too_few :
    (n : ℕ) (rs : List (Outcome (Unit {0})))
    → length rs < n
    → verdict n (all_calls rs) ≡ calls_of (both silent (all_of rs))
too_few zero rs h = absurd (omega arith)
too_few (suc n) [] h = refl
too_few (suc n) (done x ∷ rs) h = too_few n rs (omega arith)
too_few (suc n) (fail e ∷ rs) h = refl
too_few (suc n) (silent ∷ rs) h =
    too_few (suc n) rs (omega arith) ∙ ap calls_of (sym (silent_twice (all_of rs)))

pub verdict-all_of :
    (rs : List (Outcome (Unit {0}))) → verdict (length rs) (all_calls rs) ≡ calls_of (all_of rs)
verdict-all_of [] = refl
verdict-all_of (done x ∷ rs) = verdict-all_of rs
verdict-all_of (fail e ∷ rs) = refl
verdict-all_of (silent ∷ rs) = too_few (suc (length rs)) rs (omega arith)

pub complete_all-all_of :
    (rs : List (Outcome (Unit {0})))
    → (complete_all (launch (length rs)) (all_calls rs)).calls ≡ calls_of (all_of rs)
complete_all-all_of rs = complete_all-launch (length rs) (all_calls rs) ∙ verdict-all_of rs

pub complete_all-append :
    (xs : List (Option Error)) (p : Parallel) (ys : List (Option Error))
    → complete_all p (xs ++ ys) ≡ complete_all (complete_all p xs) ys
unfolding complete_all
complete_all-append [] p ys = refl
complete_all-append (x ∷ xs) p ys = complete_all-append xs (parallel_callback x p) ys
