-- ===== src/Common/Ending.antt =====
-- Actions that come to an end from each state of a predicate: not by `diverge`, which stands for more
-- rounds of a loop than its fuel allows.
use mathlib.Core.Bool.{Bool, true, false}
use mathlib.Core.Logic.{◌≢◌}
use mathlib.Core.Path.{refl}
use img.Common.Tests.{if◌then◌else◌}
use img.Common.Exec.{
  Exec, Outcome, ok, err, halt, panic, diverge, pure, continue, ◌>>=◌, attempt, reflect, after,
  defer,
}
use img.Common.Triple.{Triple, Post}

pub record Ends {S A : Type 0} (P : S → Type 0) (m : Exec S A) : Type 0 where
  pub at : (s : S) → P s → (m s).0 ≢ diverge

reflect-ends : {A : Type 0} (o : Outcome A) → o ≢ diverge → reflect o ≢ diverge
reflect-ends (ok a) h e = cc
reflect-ends (err x) h e = cc
reflect-ends (halt n) h e = cc
reflect-ends panic h e = cc
reflect-ends diverge h e = h refl

-- From every state.
abbrev pub AlwaysEnds : {S A : Type 0} → Exec S A → Type 0
AlwaysEnds m = Ends (λ _. Unit {0}) m

module _ {S A : Type 0} where
  pub Ends-pure : {P : S → Type 0} (a : A) → Ends P (pure a)
  unfolding pure
  Ends-pure a = record { at = λ s h e. cc }

  pub Ends-weaken : {P R : S → Type 0} {m : Exec S A} → ((s : S) → P s → R s) → Ends R m → Ends P m
  Ends-weaken f t = record { at = λ s h. t.at s (f s h) }

  pub Ends-always : {P : S → Type 0} {m : Exec S A} → AlwaysEnds m → Ends P m
  Ends-always t = record { at = λ s h. t.at s tt }

  pub Ends-if :
      {P : S → Type 0} (b : Bool) {m n : Exec S A}
      → Ends P m
      → Ends P n
      → Ends P (if b then m else n)
  Ends-if true t u = t
  Ends-if false t u = u

  pub Ends-given :
      {P : S → Type 0} {Fact : Type 0} {m : Exec S A} → (Fact → Ends P m) → Ends (λ s. P s × Fact) m
  Ends-given t = record { at = λ s h. (t h.1).at s h.0 }

  pub Ends-attempt : {P : S → Type 0} {m : Exec S A} → Ends P m → Ends P (attempt m)
  unfolding attempt
  Ends-attempt {m = m} t = record { at = λ s h. reflect-ends (m s).0 (t.at s h) }

  after-ends :
      (d : Exec S (Unit {0})) (o : Outcome A) (s : S) → o ≢ diverge → (after o d s).0 ≢ diverge
  after-ends d (ok a) s h e = cc
  after-ends d (err x) s h e = cc
  after-ends d (halt n) s h e = cc
  after-ends d panic s h e = cc
  after-ends d diverge s h e = h refl

  pub Ends-defer :
      {P : S → Type 0} (d : Exec S (Unit {0})) {m : Exec S A} → Ends P m → Ends P (defer d m)
  unfolding defer
  Ends-defer d {m = m} t = record { at = λ s h. after-ends d (m s).0 (m s).1 (t.at s h) }

  attempt-Post :
      (Q : Outcome A → S → Type 0) (o : Outcome A) (s : S)
      → Q o s
      → Post Q (λ _. Unit {0}) (reflect o) s
  attempt-Post Q (ok a) s h = h
  attempt-Post Q (err e) s h = h
  attempt-Post Q (halt n) s h = tt
  attempt-Post Q panic s h = tt
  attempt-Post Q diverge s h = tt

  -- What is known of the outcome that the caller goes on with.
  pub Triple-outcome :
      {P : S → Type 0} {Q : Outcome A → S → Type 0} (m : Exec S A)
      → ((s : S) → P s → Q (m s).0 (m s).1)
      → Triple P (attempt m) Q (λ _. Unit {0})
  unfolding attempt
  Triple-outcome {Q = Q} m t = record { at = λ s h. attempt-Post Q (m s).0 (m s).1 (t s h) }

module _ {S A B : Type 0} where
  continue-Ends :
      (Q : A → S → Type 0) (E : S → Type 0) (f : A → Exec S B)
      → ((a : A) → Ends (Q a) (f a))
      → (o : Outcome A) (s : S) → o ≢ diverge
      → Post Q E o s
      → (continue o f s).0 ≢ diverge
  continue-Ends Q E f t (ok a) s h p = (t a).at s p
  continue-Ends Q E f t (err x) s h p = λ e. cc
  continue-Ends Q E f t (halt n) s h p = λ e. cc
  continue-Ends Q E f t panic s h p = λ e. cc
  continue-Ends Q E f t diverge s h p = λ e. h refl

  pub Ends-bind :
      {P : S → Type 0} {Q : A → S → Type 0} {E : S → Type 0} {m : Exec S A} {f : A → Exec S B}
      → Triple P m Q E
      → Ends P m
      → ((a : A) → Ends (Q a) (f a))
      → Ends P (m >>= f)
  unfolding ◌>>=◌
  Ends-bind {Q = Q} {E = E} {m = m} {f = f} t ends u = record {
    at = λ s h. continue-Ends Q E f u (m s).0 (m s).1 (ends.at s h) (t.at s h);
  }
