-- ===== src/Main/Interrupted.antt =====
-- The whole of `main` outside the namespace, where a signal comes while it polls for its child.
use img.Common.{
  ℕ, suc, ◌+◌, ◌≤◌, ◌%◌, String, true, false, some, if◌then◌else◌, List, ◌∷◌, ◌≡◌, refl, ◌∙◌, ap,
}
use img.Common.Exec.{Outcome, ok, err, halt, Kind, foreign, ◌>>=◌}
use img.Common.Text.{same_code}
use img.Backend.{valid_backends}
use img.Services.{Services}
use img.Client.{State, call, lift}
use img.Flag.{Parsed}
use img.Reexec.{coming, start_and_wait, wait_loop, needs_reexec, reexec}
use img.Reexec.Interrupted.{signalled, wait_loop-interrupted}
use img.Reexec.Waiting.{Idle, unexited}
use img.Main.{contains, find, is_help, main, run_parsed, set_level}
use img.Main.Interface.{Command, globals, parse_flags}

-- The state behind `set_level`, at a host.
abbrev pub levelled : {W : Type 0} → Parsed → W → State W → State W
levelled p w s = record s {
  host = w;
  verbose = if (globals p.settings).debug then true else s.verbose;
}

module _ {W : Type 0} (S : Services W) (commands : List (Command W)) (name : String)
    (rest : List String) (s : State W) (no_help : is_help name rest ≡ false) (c : Command W)
    (p : Parsed) (found : find name commands ≡ some c) (parsed : parse_flags c rest s ≡ (ok p, s))
    (valid : contains valid_backends (globals p.settings).backend ≡ true)
    (asks : c.description.do_reexec ≡ true) {asked started located : W} (pid pgid : ℕ)
    (needed : needs_reexec S (levelled p s.host s) ≡ (ok true, levelled p asked s))
    (start : S.processes.start_self (name ∷ rest) "IMG_DO_UNSHARE=1" asked ≡ (ok pid, started))
    (locate : S.processes.getpgid pid started ≡ (ok pgid, located)) where
  -- The two turns before the loop are the signal's if it comes that early.
  main-waits :
      (k m fuel : ℕ) (sig : String) {n : ℕ} {t : State W}
      → wait_loop S fuel pgid 0 (coming k sig m) (levelled p located s) ≡ (halt n, t)
      → main S
          (record { handler = coming (suc (suc k)) sig m; fuel = fuel })
          commands
          (name ∷ rest)
          s
        ≡ (halt n, t)
  unfolding main set_level lift run_parsed reexec start_and_wait call ◌>>=◌
  main-waits k m fuel sig h =
      rw no_help
        (rw found (rw parsed (rw valid (rw asks (rw needed (rw start (rw locate (rw h refl))))))))

  -- The command asks for the re-execution and it is needed, the child starts and its group is known, and
  -- a signal comes after k polls that find nothing; `Kill` of the child's group succeeds, and the child
  -- is found to be ended by a signal by the poll that follows n more, the one after which there is no
  -- child. If `os.Exit(0)` comes within n + 1 polls of `Kill`, the process ends with status 0; if it
  -- comes later, the process has ended with status 255 by then, and all that was printed is the message
  -- on the signal.
  pub main-interrupted :
      (k n late ws fuel : ℕ) (sig t : String) {before gone dying reaped : W} (w' : W)
      → k + n + 3 ≤ fuel
      → Idle S pgid k located before
      → S.processes.kill_group pgid before ≡ (ok tt, gone)
      → Idle S pgid n gone dying
      → S.processes.wait_group pgid dying ≡ (ok ws, reaped)
      → S.processes.wait_group pgid reaped ≡ (err (foreign Kind.no_child t), w')
      → same_code (ws % 128) 0 ≡ false
      → (late ≤ n + 1
          → (main S
              (record { handler = coming (suc (suc k)) sig late; fuel = fuel })
              commands
              (name ∷ rest)
              s).0
            ≡ halt 0)
        × (n + 2 ≤ late
            → main S
                (record { handler = coming (suc (suc k)) sig late; fuel = fuel })
                commands
                (name ∷ rest)
                s
              ≡ (halt 255, signalled sig w' (levelled p located s)))
  main-interrupted k n late ws fuel sig t w' enough i kill j f g dead =
      let both =
        wait_loop-interrupted S pgid k n late ws 0 fuel sig t (levelled p located s) enough refl i
          kill j f g in
      (
        λ h.
            ap (λ (r : Outcome (Unit {0}) × State W). r.0)
              (main-waits k late fuel sig (λ x. (
                both.0 h x,
                (wait_loop S fuel pgid 0 (coming k sig late) (levelled p located s)).1,
              ))),
        λ h. main-waits k late fuel sig (
            both.1 h
            ∙ ap (λ (m : ℕ). (halt m, signalled sig w' (levelled p located s))) (unexited ws dead)),
      )
