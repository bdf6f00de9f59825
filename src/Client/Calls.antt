-- ===== src/Client/Calls.antt =====
-- What a call of foreign code leaves, and what is known of its value.
use img.Common.{String, List, ◌≡◌, refl}
use img.Common.Exec.{Exec, Outcome, ok, err, halt, panic, diverge}
use img.Common.Output.{Line, Arg}
use img.Common.Triple.{Triple, Keeps, Post, Triple-bind, Triple-if, Triple-pure, Keeps-gets}
use img.Client.{State, call, lift, print, debugf}

module _ {W A : Type 0} (P : State W → Type 0) (Fact : A → Type 0) where
  fact-Post :
      (s : State W) (first : Outcome A)
      → P s
      → ((a : A) → first ≡ ok a → Fact a)
      → (o : Outcome A) → first ≡ o
      → Post (λ a st. P st × Fact a) P o s
  fact-Post s first h f (ok a) e = (h, f a e)
  fact-Post s first h f (err x) e = h
  fact-Post s first h f (halt n) e = h
  fact-Post s first h f panic e = h
  fact-Post s first h f diverge e = h

  pub call-Triple :
      (m : Exec W A)
      → ((s : State W) → P s → P (record s { host = (m s.host).1 }))
      → ((s : State W) (a : A) → P s → (m s.host).0 ≡ ok a → Fact a)
      → Triple P (call m) (λ a s. P s × Fact a) P
  unfolding call
  call-Triple m keeps fact = record {
    at = λ s h.
        fact-Post (record s { host = (m s.host).1 }) (m s.host).0 (keeps s h) (λ a e. fact s a h e)
          (m s.host).0 refl;
  }

  pub lift-Triple :
      (o : Outcome A) → ((a : A) → o ≡ ok a → Fact a) → Triple P (lift o) (λ a s. P s × Fact a) P
  unfolding lift
  lift-Triple o fact = record { at = λ s h. fact-Post s o h fact o refl }

-- What a line keeps, a message for the debug level keeps.
pub debugf-Keeps :
    {W : Type 0} {P : State W → Type 0}
    → ((line : Line) → Keeps P (print line))
    → (format : String) (args : List Arg) → Keeps P (debugf format args)
unfolding debugf
debugf-Keeps stable format args =
    Triple-bind (Keeps-gets _) λ shown. Triple-if shown (stable _) (Triple-pure tt (λ s h. h))
