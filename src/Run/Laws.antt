-- ===== src/Run/Laws.antt =====
-- How a chain of callbacks goes on once the outcome of its first part is known.
use aedes.Common.{◌≡◌, refl, ap}
use aedes.Errors.{Error}
use aedes.Run.{Outcome, done, fail, silent, M, continue_with, settle_with, both}

module _ {S A B : Type 0} where
  pub after_done :
      (f : A → M S B) (r : Outcome A × S) (a : A) → r.0 ≡ done a → continue_with f r ≡ f a r.1
  after_done f r a e = ap (λ x. continue_with f (x, r.1)) e

  pub settle_done :
      (f : A → M S B) (g : Error → M S B) (r : Outcome A × S) (a : A)
      → r.0 ≡ done a
      → settle_with f g r ≡ f a r.1
  settle_done f g r a e = ap (λ x. settle_with f g (x, r.1)) e

  pub settle_fail :
      (f : A → M S B) (g : Error → M S B) (r : Outcome A × S) (e : Error)
      → r.0 ≡ fail e
      → settle_with f g r ≡ g e r.1
  settle_fail f g r e same = ap (λ x. settle_with f g (x, r.1)) same

  -- What holds of the state after every outcome.
  pub bind_kept :
      (P : S → Type 0) (f : A → M S B) (r : Outcome A × S)
      → P r.1
      → ((a : A) (s : S) → P s → P (f a s).1)
      → P (continue_with f r).1
  bind_kept P f (done a, s) q go = go a s q
  bind_kept P f (fail e, s) q go = q
  bind_kept P f (silent, s) q go = q

pub both_done : (r rs : Outcome (Unit {0})) → r ≡ done tt → rs ≡ done tt → both r rs ≡ done tt
both_done r rs a b = rw (a, b) refl
