-- ===== src/Main/Child.antt =====
-- The process that starts itself again, and the command that it was called with.
use Prim.Native.Nat.{ℕ, zero, suc}
use img.Common.{String, true, List, ◌≡◌, ◌≢◌, refl, Bool-cases, inl, inr}
use img.Common.Exec.{Exec, Outcome, ok, err, halt, panic, diverge, Error, continue, ◌>>=◌}
use img.Common.Failing.{Fails, exit-Fails, after-Fails, never}
use img.Common.Output.{Arg}
use img.Common.Triple.{Triple-if}
use img.Services.{Services}
use img.Client.{State, lift, print, fatal}
use img.Command.{Globals}
use img.Flag.{Parsed}
use img.Backend.{valid_backends}
use img.Reexec.{
  Handler, Watch, wait_failed, waited, wait_loop, start_and_wait, needs_reexec, reexec,
}
use img.Main.{contains, runc_ready, run_with_runc, run_parsed}
use img.Main.Interface.{Command, globals}

module _ {W : Type 0} where
  fatal-Fails :
      {A : Type 0} (format : String) (args : List Arg)
      → Fails {S = State W} {A = A} (fatal format args)
  unfolding fatal
  fatal-Fails format args = after-Fails _ λ _. exit-Fails 1

module _ {W : Type 0} (S : Services W) where
  wait_failed-Fails : (ws : ℕ) (e : Error) → Fails (wait_failed S ws e)
  unfolding wait_failed
  wait_failed-Fails ws e = Triple-if _ (exit-Fails _) (fatal-Fails _ _)

  waited-Fails :
      (more : ℕ → Exec (State W) (Unit {0})) (ws : ℕ) (o : Outcome ℕ)
      → ((ws' : ℕ) → Fails (more ws'))
      → Fails (waited S more ws o)
  unfolding waited lift
  waited-Fails more ws (ok ws') h = h ws'
  waited-Fails more ws (err e) h = wait_failed-Fails ws e
  waited-Fails more ws (halt n) h = record { at = λ s _. tt }
  waited-Fails more ws panic h = record { at = λ s _. tt }
  waited-Fails more ws diverge h = record { at = λ s _. tt }

  wait_loop-Fails : (fuel pgid ws : ℕ) (h : Handler) → Fails (wait_loop S fuel pgid ws h)
  unfolding wait_loop lift
  wait_loop-Fails zero pgid ws h = record { at = λ s _. tt }
  wait_loop-Fails (suc fuel) pgid ws h = after-Fails _ λ h'.
      after-Fails _ λ polled. waited-Fails _ ws polled (λ ws'. wait_loop-Fails fuel pgid ws' h')

  start_and_wait-Fails : (watch : Watch) (args : List String) → Fails (start_and_wait S watch args)
  unfolding start_and_wait
  start_and_wait-Fails watch args = after-Fails _ λ before. after-Fails _ λ started.
      after-Fails _ λ pid. after-Fails _ λ behind.
        after-Fails _ λ group. after-Fails _ λ pgid. wait_loop-Fails watch.fuel pgid 0 behind

  module _ (watch : Watch) (argv : List String) (s s' : State W)
      (needed : needs_reexec S s ≡ (ok true, s')) where
    reexec-ne : (u : Unit {0}) → (reexec S watch argv s).0 ≢ ok u
    unfolding reexec ◌>>=◌
    reexec-ne u = rw needed (never (start_and_wait-Fails watch argv) s' u)

continue-ne :
    {S A B : Type 0} (o : Outcome A) (f g : A → Exec S B) (s : S)
    → ((a : A) → o ≢ ok a)
    → (continue o f s ≡ continue o g s) × ((b : B) → (continue o f s).0 ≢ ok b)
continue-ne (ok a) f g s h = absurd (h a refl)
continue-ne (err e) f g s h = (refl, λ b q. cc)
continue-ne (halt n) f g s h = (refl, λ b q. cc)
continue-ne panic f g s h = (refl, λ b q. cc)
continue-ne diverge f g s h = (refl, λ b q. cc)

-- What follows `reexec` in `main`.
abbrev rest :
    {W : Type 0}
    → Services W
    → Watch
    → List (Command W)
    → Parsed
    → Command W
    → Unit {0}
    → Exec (State W) (Unit {0})
rest S watch commands p k _ = runc_ready S watch commands k.description.requires_runc >>= λ ready.
    run_with_runc S watch commands k (globals p.settings) p.settings p.args ready

module _ {W : Type 0} (S : Services W) (watch : Watch) (commands : List (Command W))
    (argv : List String) (c : Command W) (p : Parsed) (s s' : State W)
    (asks : c.description.do_reexec ≡ true) (needed : needs_reexec S s ≡ (ok true, s')) where
  -- Where a command asks for the re-execution and it is needed, `main` does not come back behind the
  -- flags, and what it does is the same whatever the command's own `Run` is.
  pub run_parsed-child :
      (run : Globals → List (String × String) → List String → Exec (State W) (Unit {0}))
      → (run_parsed S watch commands argv c p s
          ≡ run_parsed S watch commands argv (record c { run = run }) p s)
        × ((run_parsed S watch commands argv c p s).0 ≢ ok tt)
  unfolding run_parsed fatal print ◌>>=◌
  run_parsed-child run = elim (Bool-cases (contains valid_backends (globals p.settings).backend)) [
    | inl valid ↦
        let both =
          continue-ne (reexec S watch argv s).0 (rest S watch commands p c)
            (rest S watch commands p (record c { run = run })) (reexec S watch argv s).1
            (reexec-ne S watch argv s s' needed) in
        rw (valid, asks) (both.0, both.1 tt)
    | inr invalid ↦ rw invalid (refl, λ e. cc)
  ]
