-- ===== src/Run.antt =====
-- The outcomes of callbacks, and the combinators of lib/utils.js that chain them, `runSeries` and
-- `runFall`. A function that ends in `done(err)` or `done(null, value)` is a state transformer with
-- an outcome; an outcome may also be that the callback is never called.
pub mod Laws
use aedes.Common.{List, [], ◌∷◌}
use aedes.Errors.{Error}

pub data Outcome {ℓ} (A : Type ℓ) : Type ℓ where
  -- `done(null, value)`, or a promise that is resolved
  done : A → Outcome A
  -- `done(err)`, or a promise that is rejected
  fail : Error → Outcome A
  -- the callback is never called, or the promise never settled
  silent : Outcome A

abbrev pub M : Type 0 → Type 0 → Type 0
M S A = S → Outcome A × S

abbrev pub pure : {S A : Type 0} → A → M S A
pure a s = (done a, s)

abbrev pub throw : {S A : Type 0} → Error → M S A
throw e s = (fail e, s)

abbrev pub never : {S A : Type 0} → M S A
never s = (silent, s)

abbrev pub continue_with : {S A B : Type 0} → (A → M S B) → Outcome A × S → Outcome B × S
continue_with f (done a, s) = f a s
continue_with f (fail e, s) = (fail e, s)
continue_with f (silent, s) = (silent, s)

infixl 5 ◌>>=◌ ◌>>◌
abbrev pub ◌>>=◌ : {S A B : Type 0} → M S A → (A → M S B) → M S B
◌>>=◌ m f s = continue_with f (m s)

abbrev pub ◌>>◌ : {S A B : Type 0} → M S A → M S B → M S B
◌>>◌ m k = m >>= λ _. k

-- `promise.then(f, g)`, and a callback that looks at its error itself.
abbrev pub settle_with :
    {S A B : Type 0} → (A → M S B) → (Error → M S B) → Outcome A × S → Outcome B × S
settle_with f g (done a, s) = f a s
settle_with f g (fail e, s) = g e s
settle_with f g (silent, s) = (silent, s)

abbrev pub settle : {S A B : Type 0} → M S A → (A → M S B) → (Error → M S B) → M S B
settle m f g s = settle_with f g (m s)

-- A statement that has no callback: it changes the state.
abbrev pub modify : {S : Type 0} → (S → S) → M S (Unit {0})
modify f s = (done tt, f s)

-- `runSeries(state, actions, packet, done)`. All actions are given the one object `packet`, which
-- they may change: an action returns it as it leaves it.
unfoldable pub run_series : {S A : Type 0} → List (A → M S A) → A → M S A
run_series [] packet = pure packet
run_series (action ∷ actions) packet = action packet >>= run_series actions

-- `runFall(fns)(arg, cb)`: each function is given what the one before it passed on.
unfoldable pub run_fall : {S A : Type 0} → List (A → M S A) → A → M S A
run_fall [] arg = pure arg
run_fall (fn ∷ fns) arg = fn arg >>= run_fall fns

-- The outcome of `runParallel` when its items complete one after the other: the first error.
abbrev pub both : Outcome (Unit {0}) → Outcome (Unit {0}) → Outcome (Unit {0})
both (fail e) r = fail e
both (done _) r = r
both silent (fail e) = fail e
both silent _ = silent
