-- ===== src/Reexec.antt =====
-- reexec.go: the program starts itself again in a user namespace, and ends with its child's status.
-- Its two goroutines take turns at their calls: when a signal comes, and how long the process lives
-- behind the `Kill` that follows, is an argument. Reexec/Signals.antt has the same goroutines as a
-- step relation, and Reexec/Refined.antt connects the two.
pub mod Waiting
pub mod Interrupted
pub mod Early
pub mod Signals
pub mod Observed
pub mod Following
pub mod Simulated
pub mod Polling
pub mod Starting
pub mod Refined
use Prim.Native.Nat.{ℕ, zero, suc, ◌/◌, ◌%◌, ◌^◌}
use img.Common.{String, Bool, true, false, List, [], ◌∷◌, not, ◌==◌, if◌then◌else◌}
use img.Common.Exec.{
  Exec, Outcome, ok, err, halt, panic, diverge, Error, Kind, foreign, pure, exit, ◌>>=◌, ◌>>◌,
  attempt,
}
use img.Common.Int.{ℤ, pos, negsuc, to_bits}
use img.Common.Text.{same_code}
use img.Services.{Services}
use img.Common.Output.{text, number, error, logged}
use img.Client.{State, call, lift, print, fatal}

-- `WaitStatus.ExitStatus` on Linux: -1 if the child did not exit.
unfoldable pub exit_status : ℕ → ℤ
exit_status ws = if same_code (ws % 128) 0 then pos (ws / 256 % 256) else negsuc 0

-- What `os.Exit(code)` leaves for the parent: the low eight bits.
unfoldable pub process_status : ℤ → ℕ
process_status code = to_bits code % 256

-- `err.Error() == "no child processes"`
abbrev pub is_no_child : Error → Bool
is_no_child (foreign Kind.no_child _) = true
is_no_child _ = false

-- Where the goroutine stands that waits for a signal. `coming n sig m` is before the signal of that
-- name, with n calls of the other goroutine to go; `leaving m` is between `Kill` and `os.Exit`, with m
-- calls of the other one to go.
pub data Handler : Type 0 where
  quiet : Handler
  coming : ℕ → String → ℕ → Handler
  leaving : ℕ → Handler

-- What the environment decides of the re-execution, and fuel for the loop over `Wait4`.
pub record Watch : Type 0 where
  pub handler : Handler
  pub fuel : ℕ

module _ {W : Type 0} (S : Services W) where
  open S.processes use {getenv, start_self, getpgid, kill_group, wait_group}

  -- What the goroutine does about the result of `Kill`.
  unfoldable pub after_kill : ℕ → Outcome (Unit {0}) → Exec (State W) (Unit {0})
  unfolding fatal
  after_kill pgid (err e) = fatal "syscall.Kill %d error: %v" (number (pos pgid) ∷ error e ∷ [])
  after_kill pgid (ok _) = pure tt
  after_kill pgid (halt n) = lift (halt n)
  after_kill pgid panic = lift panic
  after_kill pgid diverge = lift diverge

  -- `os.Exit(0)`, after so many calls of the other goroutine.
  unfoldable pub leave : ℕ → Exec (State W) Handler
  leave zero = exit 0
  leave (suc n) = pure (leaving n)

  -- The turn of the signal's goroutine before a call of the other one, at the value of `pgid` there.
  unfoldable pub signal_turn : ℕ → Handler → Exec (State W) Handler
  unfolding after_kill leave print
  signal_turn pgid quiet = pure quiet
  signal_turn pgid (coming (suc n) sig m) = pure (coming n sig m)
  signal_turn pgid (coming zero sig m) = do
    print (logged "Received %s, exiting." (text sig ∷ []))
    done ← attempt (call (kill_group pgid))
    after_kill pgid done
    leave m
  signal_turn pgid (leaving m) = leave m

  -- `log.Fatalf` on a call's error.
  unfoldable pub or_fatal : {A : Type 0} → String → Outcome A → Exec (State W) A
  unfolding fatal
  or_fatal format (err e) = fatal format (error e ∷ [])
  or_fatal format (ok a) = lift (ok a)
  or_fatal format (halt n) = lift (halt n)
  or_fatal format panic = lift panic
  or_fatal format diverge = lift diverge

  -- What `Wait4` fails with: no child is left, and its status is passed on; or another error.
  unfoldable pub wait_failed : ℕ → Error → Exec (State W) (Unit {0})
  unfolding fatal
  wait_failed ws e =
      if is_no_child e
      then exit (process_status (exit_status ws))
      else fatal "wait4 error: %v" (error e ∷ [])

  -- What the loop does about the result of `Wait4`; `more` is its next round.
  unfoldable pub waited :
      (ℕ → Exec (State W) (Unit {0})) → ℕ → Outcome ℕ → Exec (State W) (Unit {0})
  unfolding wait_failed
  waited more ws (ok ws') = more ws'
  waited more ws (err e) = wait_failed ws e
  waited more ws (halt n) = lift (halt n)
  waited more ws panic = lift panic
  waited more ws diverge = lift diverge

  -- The loop over `Wait4`, `ws` being the status of the round before. It ends by `os.Exit` alone.
  unfoldable pub wait_loop : ℕ → ℕ → ℕ → Handler → Exec (State W) (Unit {0})
  unfolding waited signal_turn
  wait_loop zero pgid ws h = lift diverge
  wait_loop (suc fuel) pgid ws h = do
    h' ← signal_turn pgid h
    polled ← attempt (call (wait_group pgid))
    waited (λ ws'. wait_loop fuel pgid ws' h') ws polled

  unfoldable pub start_and_wait : Watch → List String → Exec (State W) (Unit {0})
  unfolding or_fatal wait_loop
  start_and_wait watch args = do
    before ← signal_turn 0 watch.handler
    started ← attempt (call (start_self args "IMG_DO_UNSHARE=1"))
    pid ← or_fatal "cmd.Start error: %v" started
    behind ← signal_turn 0 before
    group ← attempt (call (getpgid pid))
    pgid ← or_fatal "getpgid error: %v" group
    wait_loop watch.fuel pgid 0 behind

  unfoldable pub euid_test : Bool → Exec (State W) Bool
  euid_test false = pure false
  euid_test true = do euid ← call S.workers.parent_euid; pure (not (same_code euid 0))

  unfoldable pub unshare_test : Bool → Exec (State W) Bool
  unfolding euid_test
  unshare_test false = pure false
  unshare_test true = do unshared ← call (getenv "IMG_DO_UNSHARE"); euid_test (unshared == "")

  -- The three tests, each made only if those before it hold.
  unfoldable pub needs_reexec : Exec (State W) Bool
  unfolding unshare_test
  needs_reexec = do testing ← call (getenv "IMG_RUNNING_TESTS"); unshare_test (testing == "")

  -- `reexec`, at the arguments behind the program's name.
  unfoldable pub reexec : Watch → List String → Exec (State W) (Unit {0})
  unfolding needs_reexec start_and_wait
  reexec watch args = do
    needed ← needs_reexec
    if needed then start_and_wait watch args else pure tt
