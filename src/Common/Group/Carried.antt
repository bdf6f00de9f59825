-- ===== src/Common/Group/Carried.antt =====
-- What a body leaves, carried through a group of two goroutines.
use mathlib.Core.Path.{◌≡◌, refl}
use img.Common.Exec.{Exec, Outcome, ok, err, halt, panic, diverge, defer, after}
use img.Common.Group.{Schedule, session_first, body_first, first_error, wait_both}
use img.Common.Triple.{
  Triple, Keeps, Post, Triple-bind, Triple-pure, Triple-relax, Triple-attempt, Keeps-attempt, holds,
}

-- Where `Wait` returns nil, both goroutines did.
pub first_error-ok :
    {A B : Type 0} (a : Outcome A) (b : Outcome B)
    → first_error a b ≡ ok tt
    → ((x : A) × (a ≡ ok x)) × ((y : B) × (b ≡ ok y))
first_error-ok (ok x) (ok y) e = ((x, refl), (y, refl))
first_error-ok (ok x) (err y) e = absurd (cc)
first_error-ok (ok x) (halt n) e = absurd (cc)
first_error-ok (ok x) panic e = absurd (cc)
first_error-ok (ok x) diverge e = absurd (cc)
first_error-ok (err x) b e = absurd (cc)
first_error-ok (halt n) b e = absurd (cc)
first_error-ok panic b e = absurd (cc)
first_error-ok diverge b e = absurd (cc)

-- What `Wait` says of the body: it returned, where `Wait` returns nil.
abbrev pub IsSound : {A : Type 0} → Outcome A × Outcome (Unit {0}) → Type 0
IsSound {A = A} r = r.1 ≡ ok tt → (a : A) × (r.0 ≡ ok a)

module _ {S A : Type 0} (Q : A → S → Type 0) (E : S → Type 0) (d : Exec S (Unit {0}))
    (keeps : (b : Outcome A) → Keeps (Post Q E b) d) where
  deferred : (o : Outcome A) (s : S) → Post Q E o s → Post Q E (after o d s).0 (after o d s).1
  deferred (ok a) s h = holds (Q a) (d s).0 (d s).1 ((keeps (ok a)).at s h)
  deferred (err e) s h = holds E (d s).0 (d s).1 ((keeps (err e)).at s h)
  deferred (halt n) s h = h
  deferred panic s h = holds E (d s).0 (d s).1 ((keeps panic).at s h)
  deferred diverge s h = h

  -- A deferred call that keeps whatever was left.
  pub Triple-defer : {P : S → Type 0} {m : Exec S A} → Triple P m Q E → Triple P (defer d m) Q E
  unfolding defer
  Triple-defer {m = m} t = record { at = λ s h. deferred (m s).0 (m s).1 (t.at s h) }

  -- What the body left holds when `Wait` returns, where the other goroutine keeps it.
  pub wait_both-Triple :
      {P : S → Type 0} {body : Exec S A} (session : Exec S (Unit {0})) (turn : Schedule)
      → Triple P body Q E
      → Keeps P session
      → ((b : Outcome A) → Keeps (Post Q E b) session)
      → ((s : S) → P s → E s)
      → ((b : Outcome A) (s : S) → Post Q E b s → E s)
      → Triple P (wait_both turn session d body) (λ r s. Post Q E r.0 s × IsSound r) E
  unfolding wait_both
  wait_both-Triple session session_first t before left early late =
      Triple-bind (Triple-relax early (Keeps-attempt before)) λ r.
        Triple-bind (Triple-attempt (Triple-defer t))
          λ b. Triple-pure (b, first_error r b) (λ s h. (h, λ e. (first_error-ok r b e).1))
  wait_both-Triple session body_first t before left early late =
      Triple-bind (Triple-attempt (Triple-defer t)) λ b.
        Triple-bind (Triple-relax (late b) (Keeps-attempt (left b)))
          λ r. Triple-pure (b, first_error b r) (λ s h. (h, λ e. (first_error-ok b r e).0))
