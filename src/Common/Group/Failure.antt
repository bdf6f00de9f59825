-- ===== src/Common/Group/Failure.antt =====
-- A body that fails, in a group of two goroutines.
use mathlib.Core.Logic.{◌≢◌}
use mathlib.Core.Path.{refl}
use img.Common.Exec.{
  Error, wrap_error, Exec, Outcome, ok, err, halt, panic, diverge, attempt, reflect, defer, after,
}
use img.Common.Group.{Schedule, session_first, body_first, first_error, wait_both}
use img.Common.Triple.{
  Triple, Post, Triple-bind, Triple-pure, Triple-weaken, Triple-given, anything,
}

abbrev pub IsFailed : {A : Type 0} → Outcome A → Type 0
IsFailed {A = A} o = (a : A) → o ≢ ok a

pub first_error-failed :
    {A B : Type 0} (a : Outcome A) (b : Outcome B) → IsFailed a → first_error a b ≢ ok tt
first_error-failed (ok x) b h e = h x refl
first_error-failed (err x) b h e = cc
first_error-failed (halt n) b h e = cc
first_error-failed panic b h e = cc
first_error-failed diverge b h e = cc

first_error-failed_second :
    {A B : Type 0} (a : Outcome A) (b : Outcome B) → IsFailed b → first_error a b ≢ ok tt
first_error-failed_second (ok x) (ok y) h e = h y refl
first_error-failed_second (ok x) (err y) h e = cc
first_error-failed_second (ok x) (halt n) h e = cc
first_error-failed_second (ok x) panic h e = cc
first_error-failed_second (ok x) diverge h e = cc
first_error-failed_second (err x) b h e = cc
first_error-failed_second (halt n) b h e = cc
first_error-failed_second panic b h e = cc
first_error-failed_second diverge b h e = cc

module _ {S A : Type 0} (session close : Exec S (Unit {0})) (body : Exec S A)
    (fails : (s : S) → IsFailed (body s).0) where
  IsFailed-Post :
      (o : Outcome A) (s : S)
      → IsFailed o
      → Post (λ b _. IsFailed b) (λ _. Unit {0}) (reflect (after o close s).0) (after o close s).1
  IsFailed-Post (ok a) s h = absurd (h a refl)
  IsFailed-Post (err e) s h = λ a f. cc
  IsFailed-Post (halt n) s h = tt
  IsFailed-Post panic s h = tt
  IsFailed-Post diverge s h = tt

  body-fails :
      Triple (λ _. Unit {0}) (attempt (defer close body)) (λ b _. IsFailed b) (λ _. Unit {0})
  unfolding attempt defer
  body-fails = record { at = λ s _. IsFailed-Post (body s).0 (body s).1 (fails s) }

  -- Whichever goroutine returns first, `Wait` does not succeed.
  pub wait_both-failed :
      (turn : Schedule)
      → Triple
          (λ _. Unit {0})
          (wait_both turn session close body)
          (λ r _. r.1 ≢ ok tt)
          (λ _. Unit {0})
  unfolding wait_both
  wait_both-failed session_first =
      Triple-bind (anything _)
        λ r. Triple-bind body-fails λ b. Triple-pure _ (λ s h. first_error-failed_second r b h)
  wait_both-failed body_first = Triple-bind (Triple-weaken body-fails (λ b s h. (tt, h))) λ b.
      Triple-given
        λ h. Triple-bind (anything _) λ r. Triple-pure _ (λ s _. first_error-failed b r h)

-- A wrapped error is an error.
pub wrap_error-IsFailed :
    {A : Type 0} (f : Error → Error) (o : Outcome A) → IsFailed o → IsFailed (wrap_error f o)
wrap_error-IsFailed f (ok a) h = absurd (h a refl)
wrap_error-IsFailed f (err e) h = λ a g. cc
wrap_error-IsFailed f (halt n) h = λ a g. cc
wrap_error-IsFailed f panic h = λ a g. cc
wrap_error-IsFailed f diverge h = λ a g. cc
