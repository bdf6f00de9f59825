-- ===== src/Common/Triple.antt =====
-- What holds after an action: `Q` of its value and the new state if it returns, and `E` of the new
-- state if it fails in any way. One rule for each way to build an action.
use Prim.Native.Nat.{ℕ}
use mathlib.Core.Path.{◌≡◌, refl}
use mathlib.Core.Logic.{◌≢◌}
use mathlib.Core.Bool.{Bool, true, false}
use img.Common.Tests.{if◌then◌else◌}
use img.Common.Exec.{
  Exec, Outcome, ok, err, halt, panic, diverge, Error, pure, raise, exit, continue, ◌>>=◌, or_fail,
  wrap_error, attempt, reflect, after, defer, gets, modify,
}

module _ {S A : Type 0} where
  abbrev pub Post : (A → S → Type 0) → (S → Type 0) → Outcome A → S → Type 0
  Post Q E (ok a) s = Q a s
  Post Q E (err e) s = E s
  Post Q E (halt n) s = E s
  Post Q E panic s = E s
  Post Q E diverge s = E s

  pub record Triple (P : S → Type 0) (m : Exec S A) (Q : A → S → Type 0) (E : S → Type 0)
      : Type 0 where
    pub at : (s : S) → P s → Post Q E (m s).0 (m s).1

  -- An action that changes nothing that `P` can see.
  abbrev pub Keeps : (S → Type 0) → Exec S A → Type 0
  Keeps P m = Triple P m (λ _. P) P

module _ {S A : Type 0} where
  pub keeps_all : (P : S → Type 0) (o : Outcome A) (s : S) → P s → Post (λ _. P) P o s
  keeps_all P (ok a) s h = h
  keeps_all P (err e) s h = h
  keeps_all P (halt n) s h = h
  keeps_all P panic s h = h
  keeps_all P diverge s h = h

  pub Triple-pure :
      {P : S → Type 0} {Q : A → S → Type 0} {E : S → Type 0} (a : A)
      → ((s : S) → P s → Q a s)
      → Triple P (pure a) Q E
  unfolding pure
  Triple-pure a h = record { at = h }

  pub Triple-exit : {P : S → Type 0} {Q : A → S → Type 0} (n : ℕ) → Triple P (exit n) Q P
  unfolding exit ◌>>=◌
  Triple-exit n = record { at = λ s h. h }

  pub Triple-raise : {P : S → Type 0} {Q : A → S → Type 0} (e : Error) → Triple P (raise e) Q P
  unfolding raise
  Triple-raise e = record { at = λ s h. h }

  pub Triple-weaken :
      {P : S → Type 0} {Q R : A → S → Type 0} {E : S → Type 0} {m : Exec S A}
      → Triple P m Q E
      → ((a : A) (s : S) → Q a s → R a s)
      → Triple P m R E
  Triple-weaken {Q = Q} {R = R} {E = E} {m = m} t f = record {
    at = λ s h. weaken (m s).0 (m s).1 (t.at s h);
  }
    where
      weaken : (o : Outcome A) (s : S) → Post Q E o s → Post R E o s
      weaken (ok a) s h = f a s h
      weaken (err e) s h = h
      weaken (halt n) s h = h
      weaken panic s h = h
      weaken diverge s h = h

  -- From what says more.
  pub Triple-from :
      {P R : S → Type 0} {Q : A → S → Type 0} {E : S → Type 0} {m : Exec S A}
      → ((s : S) → P s → R s)
      → Triple R m Q E
      → Triple P m Q E
  Triple-from f t = record { at = λ s h. t.at s (f s h) }

  relax-Post :
      (Q : A → S → Type 0) (E F : S → Type 0)
      → ((s : S) → E s → F s)
      → (o : Outcome A) (s : S) → Post Q E o s
      → Post Q F o s
  relax-Post Q E F f (ok a) s h = h
  relax-Post Q E F f (err e) s h = f s h
  relax-Post Q E F f (halt n) s h = f s h
  relax-Post Q E F f panic s h = f s h
  relax-Post Q E F f diverge s h = f s h

  -- What holds after a failure, weakened.
  pub Triple-relax :
      {P : S → Type 0} {Q : A → S → Type 0} {E F : S → Type 0} {m : Exec S A}
      → ((s : S) → E s → F s)
      → Triple P m Q E
      → Triple P m Q F
  Triple-relax {Q = Q} {E = E} {F = F} {m = m} f t = record {
    at = λ s h. relax-Post Q E F f (m s).0 (m s).1 (t.at s h);
  }

  wrap-Post :
      (Q : A → S → Type 0) (E : S → Type 0) (f : Error → Error) (o : Outcome A) (s : S)
      → Post Q E o s
      → Post Q E (wrap_error f o) s
  wrap-Post Q E f (ok a) s h = h
  wrap-Post Q E f (err e) s h = h
  wrap-Post Q E f (halt n) s h = h
  wrap-Post Q E f panic s h = h
  wrap-Post Q E f diverge s h = h

  pub Triple-or_fail :
      {P : S → Type 0} {Q : A → S → Type 0} {E : S → Type 0} {m : Exec S A} (f : Error → Error)
      → Triple P m Q E
      → Triple P (or_fail f m) Q E
  unfolding or_fail
  Triple-or_fail {Q = Q} {E = E} {m = m} f t = record {
    at = λ s h. wrap-Post Q E f (m s).0 (m s).1 (t.at s h);
  }

  outcome-Post :
      (Q : A → S → Type 0) (E : S → Type 0) (o : Outcome A) (s : S)
      → Post Q E o s
      → Post (Post Q E) E (reflect o) s
  outcome-Post Q E (ok a) s h = h
  outcome-Post Q E (err e) s h = h
  outcome-Post Q E (halt n) s h = h
  outcome-Post Q E panic s h = h
  outcome-Post Q E diverge s h = h

  reflect-Post :
      (P : S → Type 0) (o : Outcome A) (s : S) → Post (λ _. P) P o s → Post (λ _. P) P (reflect o) s
  reflect-Post P (ok a) s h = h
  reflect-Post P (err e) s h = h
  reflect-Post P (halt n) s h = h
  reflect-Post P panic s h = h
  reflect-Post P diverge s h = h

  -- What the outcome in hand says of the state.
  pub Triple-attempt :
      {P : S → Type 0} {Q : A → S → Type 0} {E : S → Type 0} {m : Exec S A}
      → Triple P m Q E
      → Triple P (attempt m) (Post Q E) E
  unfolding attempt
  Triple-attempt {Q = Q} {E = E} {m = m} t = record {
    at = λ s h. outcome-Post Q E (m s).0 (m s).1 (t.at s h);
  }

  pub Keeps-attempt : {P : S → Type 0} {m : Exec S A} → Keeps P m → Keeps P (attempt m)
  unfolding attempt
  Keeps-attempt {P = P} {m = m} t = record { at = λ s h. reflect-Post P (m s).0 (m s).1 (t.at s h) }

module _ {S A B : Type 0} where
  continue-Post :
      (Q : A → S → Type 0) (R : B → S → Type 0) (E : S → Type 0) (f : A → Exec S B)
      → ((a : A) → Triple (Q a) (f a) R E)
      → (o : Outcome A) (s : S) → Post Q E o s
      → Post R E (continue o f s).0 (continue o f s).1
  continue-Post Q R E f t (ok a) s h = (t a).at s h
  continue-Post Q R E f t (err e) s h = h
  continue-Post Q R E f t (halt n) s h = h
  continue-Post Q R E f t panic s h = h
  continue-Post Q R E f t diverge s h = h

  pub Triple-bind :
      {P : S → Type 0} {Q : A → S → Type 0} {R : B → S → Type 0} {E : S → Type 0} {m : Exec S A}
      {f : A → Exec S B}
      → Triple P m Q E
      → ((a : A) → Triple (Q a) (f a) R E)
      → Triple P (m >>= f) R E
  unfolding ◌>>=◌
  Triple-bind {Q = Q} {R = R} {E = E} {m = m} {f = f} t u = record {
    at = λ s h. continue-Post Q R E f u (m s).0 (m s).1 (t.at s h);
  }

module _ {S A : Type 0} where
  outcome_at :
      (Q : A → S → Type 0) (E : S → Type 0) (first : Outcome A) (s : S)
      → ((a : A) → first ≡ ok a → Q a s)
      → E s
      → (o : Outcome A) → first ≡ o
      → Post Q E o s
  outcome_at Q E first s f h (ok a) e = f a e
  outcome_at Q E first s f h (err x) e = h
  outcome_at Q E first s f h (halt n) e = h
  outcome_at Q E first s f h panic e = h
  outcome_at Q E first s f h diverge e = h

  -- An action that is known by its outcome and its state.
  pub Triple-at :
      {P : S → Type 0} {Q : A → S → Type 0} {E : S → Type 0} (m : Exec S A)
      → ((s : S) → P s → (a : A) → (m s).0 ≡ ok a → Q a (m s).1)
      → ((s : S) → P s → E (m s).1)
      → Triple P m Q E
  Triple-at {Q = Q} {E = E} m f g = record {
    at = λ s h. outcome_at Q E (m s).0 (m s).1 (f s h) (g s h) (m s).0 refl;
  }

  -- Two facts, each known of the action alone.
  both_at :
      (Q R : A → S → Type 0) (E F : S → Type 0) (o : Outcome A) (s : S)
      → Post Q E o s
      → Post R F o s
      → Post (λ a st. Q a st × R a st) (λ st. E st × F st) o s
  both_at Q R E F (ok a) s h k = (h, k)
  both_at Q R E F (err x) s h k = (h, k)
  both_at Q R E F (halt n) s h k = (h, k)
  both_at Q R E F panic s h k = (h, k)
  both_at Q R E F diverge s h k = (h, k)

  pub Triple-both :
      {P P' : S → Type 0} {Q R : A → S → Type 0} {E F : S → Type 0} {m : Exec S A}
      → Triple P m Q E
      → Triple P' m R F
      → Triple (λ s. P s × P' s) m (λ a s. Q a s × R a s) (λ s. E s × F s)
  Triple-both {Q = Q} {R = R} {E = E} {F = F} {m = m} t u = record {
    at = λ s h. both_at Q R E F (m s).0 (m s).1 (t.at s h.0) (u.at s h.1);
  }

pub Triple-gets :
    {S A : Type 0} {P : S → Type 0} {E : S → Type 0} (f : S → A)
    → Triple P (gets f) (λ a s. P s × (a ≡ f s)) E
unfolding gets
Triple-gets f = record { at = λ s h. (h, refl) }

-- A fact about no state, that a precondition carries.
pub Triple-given :
    {S A Fact : Type 0} {P : S → Type 0} {m : Exec S A} {Q : A → S → Type 0} {E : S → Type 0}
    → (Fact → Triple P m Q E)
    → Triple (λ s. P s × Fact) m Q E
Triple-given t = record { at = λ s h. (t h.1).at s h.0 }

pub Triple-if :
    {S A : Type 0} {P : S → Type 0} {Q : A → S → Type 0} {E : S → Type 0} (b : Bool)
    {m n : Exec S A}
    → Triple P m Q E
    → Triple P n Q E
    → Triple P (if b then m else n) Q E
Triple-if true t u = t
Triple-if false t u = u

pub Keeps-gets : {S A : Type 0} {P : S → Type 0} (f : S → A) → Keeps P (gets f)
unfolding gets
Keeps-gets f = record { at = λ s h. h }

pub Triple-modify :
    {S : Type 0} {P Q E : S → Type 0} (f : S → S)
    → ((s : S) → P s → Q (f s))
    → Triple P (modify f) (λ _. Q) E
unfolding modify
Triple-modify f h = record { at = h }

-- With no way to fail, an action returns.
pub returns :
    {S A : Type 0} (Q : A → S → Type 0) (o : Outcome A) (s : S)
    → Post Q (λ _. ⊥) o s
    → (a : A) × (o ≡ ok a) × Q a s
returns Q (ok a) s h = (a, refl, h)
returns Q (err e) s h = absurd h
returns Q (halt n) s h = absurd h
returns Q panic s h = absurd h
returns Q diverge s h = absurd h

-- Nothing is asked of a failure.
module _ {S A : Type 0} where
  lax-Post :
      (Q : A → S → Type 0) (E : S → Type 0) (o : Outcome A) (s : S)
      → Post Q E o s
      → Post Q (λ _. Unit) o s
  lax-Post Q E (ok a) s h = h
  lax-Post Q E (err e) s h = tt
  lax-Post Q E (halt n) s h = tt
  lax-Post Q E panic s h = tt
  lax-Post Q E diverge s h = tt

  pub Triple-lax :
      {P : S → Type 0} {Q : A → S → Type 0} {E : S → Type 0} {m : Exec S A}
      → Triple P m Q E
      → Triple P m Q (λ _. Unit)
  Triple-lax {Q = Q} {E = E} {m = m} t = record {
    at = λ s h. lax-Post Q E (m s).0 (m s).1 (t.at s h);
  }

  -- An action after which nothing can hold does not return.
  pub never_returns :
      {P E : S → Type 0} {m : Exec S A}
      → Triple P m (λ _ _. ⊥) E
      → (s : S) → P s
      → (a : A) → (m s).0 ≢ ok a
  never_returns {E = E} {m = m} t s h a e = refuse (m s).0 (t.at s h) e
    where
      refuse : (o : Outcome A) → Post (λ _ _. ⊥) E o (m s).1 → o ≡ ok a → ⊥
      refuse (ok b) p e = p
      refuse (err x) p e = cc
      refuse (halt n) p e = cc
      refuse panic p e = cc
      refuse diverge p e = cc

  pub anything : (m : Exec S A) → Triple (λ _. Unit {0}) m (λ _ _. Unit {0}) (λ _. Unit {0})
  anything m = record { at = λ s h. keeps_all (λ _. Unit) (m s).0 (m s).1 tt }

module _ {S B : Type 0} where
  pub holds : (P : S → Type 0) (o : Outcome B) (s : S) → Post (λ _. P) P o s → P s
  holds P (ok a) s h = h
  holds P (err e) s h = h
  holds P (halt n) s h = h
  holds P panic s h = h
  holds P diverge s h = h

module _ {S A : Type 0} where
  after-Post :
      (P : S → Type 0) (d : Exec S (Unit {0}))
      → Keeps P d
      → (o : Outcome A) (s : S) → Post (λ _. P) P o s
      → Post (λ _. P) P (after o d s).0 (after o d s).1
  after-Post P d k (ok a) s h = holds P (d s).0 (d s).1 (k.at s h)
  after-Post P d k (err e) s h = holds P (d s).0 (d s).1 (k.at s h)
  after-Post P d k (halt n) s h = h
  after-Post P d k panic s h = holds P (d s).0 (d s).1 (k.at s h)
  after-Post P d k diverge s h = h

  pub Keeps-defer :
      {P : S → Type 0} {d : Exec S (Unit {0})} {m : Exec S A}
      → Keeps P d
      → Keeps P m
      → Keeps P (defer d m)
  unfolding defer
  Keeps-defer {P = P} {d = d} {m = m} k t = record {
    at = λ s h. after-Post P d k (m s).0 (m s).1 (t.at s h);
  }
