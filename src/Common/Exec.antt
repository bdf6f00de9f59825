-- ===== src/Common/Exec.antt =====
-- Go's ways to leave a function. A call returns a value, returns an error, ends the process
-- (`os.Exit`, `log.Fatal`), or panics, or goes on past the fuel that a loop was given (`diverge`);
-- what it changed before that stays changed.
use mathlib.Core.List.{List}
use Prim.Native.Nat.{ℕ}
use Prim.Native.String.{String}

-- What the callers of foreign code ask of an error: `os.IsNotExist`, `errdefs.IsNotFound`,
-- `err == io.EOF`, `err.Error() == "no child processes"`, `err == flag.ErrHelp`.
pub data Kind : Type 0 where
  not_exist not_found eof no_child help_requested other : Kind

-- An error keeps the format and the arguments that the source passes to `fmt.Errorf`; `caused` is
-- one whose last argument is an error, and `foreign` an error that foreign code made.
pub data Error : Type 0 where
  errorf : String → List String → Error
  caused : String → List String → Error → Error
  foreign : Kind → String → Error

pub data Outcome {ℓ} (A : Type ℓ) : Type ℓ where
  ok : A → Outcome A
  err : Error → Outcome A
  halt : ℕ → Outcome A
  panic : Outcome A
  diverge : Outcome A

abbrev pub Exec : Type 0 → Type 0 → Type 0
Exec S A = S → Outcome A × S

module _ {S A : Type 0} where
  unfoldable pub pure : A → Exec S A
  pure a s = (ok a, s)

  unfoldable pub raise : Error → Exec S A
  raise e s = (err e, s)

  unfoldable pub exit : ℕ → Exec S A
  exit n s = (halt n, s)

  unfoldable pub gets : (S → A) → Exec S A
  gets f s = (ok (f s), s)

unfoldable pub modify : {S : Type 0} → (S → S) → Exec S (Unit {0})
modify f s = (ok tt, f s)

module _ {S A B : Type 0} where
  abbrev pub continue : Outcome A → (A → Exec S B) → Exec S B
  continue (ok a) f s = f a s
  continue (err e) f s = (err e, s)
  continue (halt n) f s = (halt n, s)
  continue panic f s = (panic, s)
  continue diverge f s = (diverge, s)

-- `if err != nil { return wrap(err) }`
abbrev pub wrap_error : {A : Type 0} → (Error → Error) → Outcome A → Outcome A
wrap_error f (ok a) = ok a
wrap_error f (err e) = err (f e)
wrap_error f (halt n) = halt n
wrap_error f panic = panic
wrap_error f diverge = diverge

unfoldable pub or_fail : {S A : Type 0} → (Error → Error) → Exec S A → Exec S A
or_fail f m s = (wrap_error f (m s).0, (m s).1)

-- `a, err := f()`, where the caller goes on with the error in hand.
abbrev pub reflect : {A : Type 0} → Outcome A → Outcome (Outcome A)
reflect (ok a) = ok (ok a)
reflect (err e) = ok (err e)
reflect (halt n) = halt n
reflect panic = panic
reflect diverge = diverge

unfoldable pub attempt : {S A : Type 0} → Exec S A → Exec S (Outcome A)
attempt m s = (reflect (m s).0, (m s).1)

-- `defer d()` above `m`: `d` runs when `m` returns or panics, and not when the process ends or goes
-- on. Its own error is dropped, as the calls that the program defers have none that is read.
abbrev pub after : {S A : Type 0} → Outcome A → Exec S (Unit {0}) → Exec S A
after (halt n) d s = (halt n, s)
after (ok a) d s = (ok a, (d s).1)
after (err e) d s = (err e, (d s).1)
after panic d s = (panic, (d s).1)
after diverge d s = (diverge, s)

unfoldable pub defer : {S A : Type 0} → Exec S (Unit {0}) → Exec S A → Exec S A
defer d m s = after (m s).0 d (m s).1

module _ {S A B : Type 0} where
  infixl 10 ◌>>=◌ ◌>>◌
  -- Opening this opens the other ways to build an action too.
  unfoldable pub ◌>>=◌ : Exec S A → (A → Exec S B) → Exec S B
  unfolding pure raise exit gets modify or_fail attempt defer
  ◌>>=◌ m f s = continue (m s).0 f (m s).1

  abbrev pub ◌>>◌ : Exec S A → Exec S B → Exec S B
  m >> n = m >>= λ _. n
