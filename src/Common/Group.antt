-- ===== src/Common/Group.antt =====
-- `errgroup` with two goroutines, of which the second closes the session that the first serves. Each
-- is one step; the schedule says which of them returns first. `Wait` returns once both have
-- returned, with the error of the one that failed first.
pub mod Failure
pub mod Carried
use img.Common.Exec.{Exec, Outcome, ok, err, halt, panic, diverge, pure, ◌>>=◌, attempt, defer}

pub data Schedule : Type 0 where
  session_first body_first : Schedule

-- The result of `Wait`, from those of the goroutine that returned first and of the other one.
abbrev pub first_error : {A B : Type 0} → Outcome A → Outcome B → Outcome (Unit {0})
first_error (err e) _ = err e
first_error (halt n) _ = halt n
first_error panic _ = panic
first_error diverge _ = diverge
first_error (ok _) (ok _) = ok tt
first_error (ok _) (err e) = err e
first_error (ok _) (halt n) = halt n
first_error (ok _) panic = panic
first_error (ok _) diverge = diverge

module _ {S A : Type 0} where
  -- What the body returned, and what `Wait` returns.
  unfoldable pub wait_both :
      Schedule
      → Exec S (Unit {0})
      → Exec S (Unit {0})
      → Exec S A
      → Exec S (Outcome A × Outcome (Unit {0}))
  wait_both session_first session close body = do
    r ← attempt session
    b ← attempt (defer close body)
    pure (b, first_error r b)
  wait_both body_first session close body = do
    b ← attempt (defer close body)
    r ← attempt session
    pure (b, first_error b r)
