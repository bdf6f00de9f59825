-- ===== src/Common/Failing.antt =====
-- Actions that never return a value.
use mathlib.Core.Logic.{◌≢◌}
use mathlib.Core.Path.{refl}
use Prim.Native.Nat.{ℕ}
use img.Common.Exec.{
  Exec, Outcome, ok, err, halt, panic, diverge, Error, raise, exit, defer, after, ◌>>=◌,
}
use img.Common.Triple.{Triple, Post, Triple-bind, Triple-raise, anything, never_returns}

abbrev pub Fails : {S A : Type 0} → Exec S A → Type 0
Fails m = Triple (λ _. Unit {0}) m (λ _ _. ⊥) (λ _. Unit {0})

module _ {S A : Type 0} where
  pub raise-Fails : (e : Error) → Fails {S = S} {A = A} (raise e)
  raise-Fails e = Triple-raise e

  pub exit-Fails : (n : ℕ) → Fails {S = S} {A = A} (exit n)
  unfolding exit ◌>>=◌
  exit-Fails n = record { at = λ s h. tt }

  after-Post :
      (d : Exec S (Unit {0})) (o : Outcome A) (s : S)
      → Post (λ _ _. ⊥) (λ _. Unit {0}) o s
      → Post (λ _ _. ⊥) (λ _. Unit {0}) (after o d s).0 (after o d s).1
  after-Post d (ok a) s h = h
  after-Post d (err e) s h = tt
  after-Post d (halt n) s h = tt
  after-Post d panic s h = tt
  after-Post d diverge s h = tt

  pub defer-Fails : (d : Exec S (Unit {0})) (m : Exec S A) → Fails m → Fails (defer d m)
  unfolding defer
  defer-Fails d m t = record { at = λ s h. after-Post d (m s).0 (m s).1 (t.at s h) }

  pub impossible : (m : Exec S A) → Triple (λ _. ⊥) m (λ _ _. ⊥) (λ _. Unit {0})
  impossible m = record { at = λ s h. absurd h }

  failed-Post : (o : Outcome A) (s : S) → ((a : A) → o ≢ ok a) → Post (λ _ _. ⊥) (λ _. Unit {0}) o s
  failed-Post (ok a) s h = absurd (h a refl)
  failed-Post (err e) s h = tt
  failed-Post (halt n) s h = tt
  failed-Post panic s h = tt
  failed-Post diverge s h = tt

  pub Fails-of : (m : Exec S A) → ((s : S) (a : A) → (m s).0 ≢ ok a) → Fails m
  Fails-of m h = record { at = λ s _. failed-Post (m s).0 (m s).1 (h s) }

  pub never : {m : Exec S A} → Fails m → (s : S) (a : A) → (m s).0 ≢ ok a
  never f s = never_returns f s tt

module _ {S A B : Type 0} where
  -- A step on the way that never returns.
  pub Fails-bind : {m : Exec S A} (f : A → Exec S B) → Fails m → Fails (m >>= f)
  Fails-bind f t = Triple-bind t λ a. impossible (f a)

  pub after-Fails : (m : Exec S A) {f : A → Exec S B} → ((a : A) → Fails (f a)) → Fails (m >>= f)
  after-Fails m t = Triple-bind (anything m) t
