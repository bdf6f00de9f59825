-- ===== src/Reexec/Following.antt =====
-- `reexec` with its two goroutines as a sequence of calls, and the step relation of
-- Reexec/Signals.antt: what the calls do to the host is what some run of the relation does.
use img.Common.{ℕ, false, some, ◌≡◌, refl, ◌∙◌, ◌⊎◌, inl}
use img.Common.Exec.{
  Exec, Outcome, ok, err, halt, panic, diverge, reflect, attempt, continue, ◌>>=◌,
}
use img.Client.{State, call}
use img.Reexec.Signals.{Parent, ended, ends, Step, Reach, next}
use img.Reexec.Observed.{Sight, IsSame, Answers, Leaves}

module _ {W : Type 0} (V : Sight W) where
  -- The host shows what the state of the relation says of the child.
  pub record IsSeen (w : W) (p : Parent) : Type 0 where
    pub child : V.child w ≡ p.child
    pub killed : V.killed w ≡ p.killed
    pub dead : p.running ≡ false → V.alive w ≡ false

  -- A run of the relation to a state that the host shows.
  pub record Reaches (s : State W) (p : Parent) : Type 0 where
    pub run : Reach p
    pub seen : IsSeen s.host p

  -- A run in which the process ended with that status, or killed its own group.
  abbrev pub Halted : ℕ → State W → Type 0
  Halted n s =
      (p : Parent) × Reaches s p × (p.phase ≡ ended) × ((p.status ≡ some n) ⊎ (p.killed ≡ some 0))

  -- What an outcome and a state show is what some run does.
  abbrev pub Follows : {A : Type 0} → (A → State W → Parent → Type 0) → Outcome A → State W → Type 0
  Follows Q (ok a) s = (p : Parent) × Reaches s p × Q a s p
  Follows Q (err e) s = ⊥
  Follows Q (halt n) s = Halted n s
  Follows Q panic s = (p : Parent) × Reaches s p
  Follows Q diverge s = (p : Parent) × Reaches s p

  pub record Runs {A : Type 0} (Q : A → State W → Parent → Type 0) (m : Exec (State W) A)
      (s : State W) : Type 0 where
    pub at : Follows Q (m s).0 (m s).1

  pub same-IsSeen : {w v : W} {p : Parent} → IsSame V w v → IsSeen w p → IsSeen v p
  same-IsSeen same h = record {
    child = same.child ∙ h.child;
    killed = same.killed ∙ h.killed;
    dead = λ e. same.dead (h.dead e);
  }

module _ {W : Type 0} {V : Sight W} {A B : Type 0} where
  continue-Follows :
      (Q : A → State W → Parent → Type 0) (R : B → State W → Parent → Type 0)
      (f : A → Exec (State W) B)
      → ((a : A) (st : State W) (p : Parent) → Reaches V st p → Q a st p → Runs V R (f a) st)
      → (o : Outcome A) (s : State W) → Follows V Q o s
      → Follows V R (continue o f s).0 (continue o f s).1
  continue-Follows Q R f t (ok a) s h = (t a s h.0 h.1 h.2).at
  continue-Follows Q R f t (err e) s h = absurd h
  continue-Follows Q R f t (halt n) s h = h
  continue-Follows Q R f t panic s h = h
  continue-Follows Q R f t diverge s h = h

  pub Runs-bind :
      {Q : A → State W → Parent → Type 0} {R : B → State W → Parent → Type 0} {m : Exec (State W) A}
      {f : A → Exec (State W) B} (s : State W)
      → Runs V Q m s
      → ((a : A) (st : State W) (p : Parent) → Reaches V st p → Q a st p → Runs V R (f a) st)
      → Runs V R (m >>= f) s
  unfolding ◌>>=◌
  Runs-bind {Q = Q} {R = R} {m = m} {f = f} s h t = record {
    at = continue-Follows Q R f t (m s).0 (m s).1 h.at;
  }

module _ {W A : Type 0} (V : Sight W) where
  -- What never returns, whatever is said of it if it does.
  never-Follows :
      (R : A → State W → Parent → Type 0) (o : Outcome A) (s : State W)
      → Follows V (λ _ _ _. ⊥) o s
      → Follows V R o s
  never-Follows R (ok a) s h = absurd h.2
  never-Follows R (err e) s h = h
  never-Follows R (halt n) s h = h
  never-Follows R panic s h = h
  never-Follows R diverge s h = h

  -- The run that an outcome is followed by.
  pub followed :
      (Q : A → State W → Parent → Type 0) (o : Outcome A) (s : State W)
      → Follows V Q o s
      → (p : Parent) × Reaches V s p
  followed Q (ok a) s h = (h.0, h.1)
  followed Q (err e) s h = absurd h
  followed Q (halt n) s h = (h.0, h.1)
  followed Q panic s h = h
  followed Q diverge s h = h

module _ {W A : Type 0} {V : Sight W} where
  pub Runs-never :
      {R : A → State W → Parent → Type 0} {m : Exec (State W) A} {s : State W}
      → Runs V (λ _ _ _. ⊥) m s
      → Runs V R m s
  Runs-never {R = R} {m = m} {s = s} h = record { at = never-Follows V R (m s).0 (m s).1 h.at }

module _ {W A : Type 0} {V : Sight W} where
  attempt-Follows :
      (Q : Outcome A → State W → Parent → Type 0) (p : Parent) (s : State W) (v : W)
      → Reaches V s p
      → (o : Outcome A) → Leaves V s.host v o
      → Q o (record s { host = v }) p
      → Follows V Q (reflect o) (record s { host = v })
  attempt-Follows Q p s v r (ok a) same q =
      (p, record { run = r.run; seen = same-IsSeen V same r.seen }, q)
  attempt-Follows Q p s v r (err e) same q =
      (p, record { run = r.run; seen = same-IsSeen V same r.seen }, q)
  attempt-Follows Q p s v r (halt n) same q = absurd same
  attempt-Follows Q p s v r panic same q =
      (p, record { run = r.run; seen = same-IsSeen V same r.seen })
  attempt-Follows Q p s v r diverge same q =
      (p, record { run = r.run; seen = same-IsSeen V same r.seen })

  -- A call that leaves the child alone, where the caller goes on with its error.
  pub Runs-attempt :
      (Q : Outcome A → State W → Parent → Type 0) (m : Exec W A) (s : State W) (p : Parent)
      → Reaches V s p
      → Leaves V s.host (m s.host).1 (m s.host).0
      → Q (m s.host).0 (record s { host = (m s.host).1 }) p
      → Runs V Q (attempt (call m)) s
  unfolding attempt call
  Runs-attempt Q m s p r same q = record {
    at = attempt-Follows Q p s (m s.host).1 r (m s.host).0 same q;
  }

  answer-Follows :
      (Fact : Parent → Type 0) (p : Parent) (s : State W) (v : W)
      → Reaches V s p
      → Fact p
      → (o : Outcome A) → Answers V s.host v o
      → Follows V (λ _ _. Fact) o (record s { host = v })
  answer-Follows Fact p s v r h (ok a) same =
      (p, record { run = r.run; seen = same-IsSeen V same r.seen }, h)
  answer-Follows Fact p s v r h (err e) same = absurd same
  answer-Follows Fact p s v r h (halt n) same = absurd same
  answer-Follows Fact p s v r h panic same = absurd same
  answer-Follows Fact p s v r h diverge same = absurd same

  -- A call that leaves the child alone and returns.
  pub Runs-call :
      (Fact : Parent → Type 0) (m : Exec W A) (s : State W) (p : Parent)
      → Reaches V s p
      → Fact p
      → Answers V s.host (m s.host).1 (m s.host).0
      → Runs V (λ _ _. Fact) (call m) s
  unfolding call
  Runs-call Fact m s p r h same = record {
    at = answer-Follows Fact p s (m s.host).1 r h (m s.host).0 same;
  }

-- The last step of the process.
pub ends-Halted :
    {W : Type 0} {V : Sight W} (n : ℕ) (s : State W) (p : Parent)
    → Reaches V s p
    → Step p (ends n p)
    → Halted V n s
ends-Halted n s p r step = (
  ends n p,
  record {
    run = next r.run step;
    seen = record { child = r.seen.child; killed = r.seen.killed; dead = r.seen.dead };
  },
  refl,
  inl refl,
)
