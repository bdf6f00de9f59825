-- ===== src/Reexec/Interrupted.antt =====
-- reexec.go when a signal comes while the parent polls for the child: `Kill` and `os.Exit` are calls
-- of one goroutine, and the other one goes on polling between them.
use Prim.Native.Nat.{ℕ, zero, suc, ◌+◌, ◌≤◌}
use img.Common.{String, [], ◌∷◌, ◌++◌, ◌≡◌, refl, ◌∙◌, ap, arith}
use img.Common.Exec.{Outcome, ok, err, halt, Kind, foreign, ◌>>=◌}
use img.Common.Output.{text, logged}
use img.Services.{Services}
use img.Client.{State, call, print}
use img.Reexec.{coming, leaving, exit_status, process_status, wait_failed, wait_loop}
use img.Reexec.Waiting.{Idle, now, poll}

-- The state behind the message and `Kill`.
abbrev pub signalled : {W : Type 0} → String → W → State W → State W
signalled sig w s = record s {
  host = w;
  out = s.out ++ (logged "Received %s, exiting." (text sig ∷ []) ∷ []);
}

module _ {W : Type 0} (S : Services W) (pgid : ℕ) where
  wait_loop-coming :
      (fuel last ws n m : ℕ) (sig : String) {w' : W} (s : State W)
      → S.processes.wait_group pgid s.host ≡ (ok ws, w')
      → wait_loop S (suc fuel) pgid last (coming (suc n) sig m) s
        ≡ wait_loop S fuel pgid ws (coming n sig m) (record s { host = w' })
  unfolding wait_loop call ◌>>=◌
  wait_loop-coming fuel last ws n m sig s h = rw h refl

  wait_loop-killed :
      (fuel last m : ℕ) (sig : String) {w' : W} (s : State W)
      → S.processes.kill_group pgid s.host ≡ (ok tt, w')
      → wait_loop S (suc fuel) pgid last (coming zero sig m) s
        ≡ wait_loop S (suc fuel) pgid last (leaving m) (signalled sig w' s)
  unfolding wait_loop call print ◌>>=◌
  wait_loop-killed fuel last m sig s h = rw h refl

  wait_loop-left :
      (fuel last : ℕ) (s : State W)
      → wait_loop S (suc fuel) pgid last (leaving zero) s ≡ (halt 0, s)
  unfolding wait_loop ◌>>=◌
  wait_loop-left fuel last s = refl

  wait_loop-leaving :
      (fuel last ws m : ℕ) {w' : W} (s : State W)
      → S.processes.wait_group pgid s.host ≡ (ok ws, w')
      → wait_loop S (suc fuel) pgid last (leaving (suc m)) s
        ≡ wait_loop S fuel pgid ws (leaving m) (record s { host = w' })
  unfolding wait_loop call ◌>>=◌
  wait_loop-leaving fuel last ws m s h = rw h refl

  wait_loop-late :
      (fuel last m : ℕ) {w' : W} (t : String) (s : State W)
      → S.processes.wait_group pgid s.host ≡ (err (foreign Kind.no_child t), w')
      → wait_loop S (suc fuel) pgid last (leaving (suc m)) s
        ≡ (halt (process_status (exit_status last)), record s { host = w' })
  unfolding wait_loop wait_failed call ◌>>=◌
  wait_loop-late fuel last m t s h = rw h refl

  -- From `Kill` on, where the child is found dead by the poll that follows n idle ones: the process
  -- ends with 0 if `os.Exit(0)` comes before the poll behind that one, and with the child's status if
  -- it does not.
  leaving-halt :
      (n late ws last fuel : ℕ) {w dying reaped w' : W} (t : String) (s : State W)
      → n + 3 ≤ fuel
      → s.host ≡ w
      → Idle S pgid n w dying
      → S.processes.wait_group pgid dying ≡ (ok ws, reaped)
      → S.processes.wait_group pgid reaped ≡ (err (foreign Kind.no_child t), w')
      → (late ≤ n + 1 → (wait_loop S fuel pgid last (leaving late) s).0 ≡ halt 0)
        × (n + 2 ≤ late
            → wait_loop S fuel pgid last (leaving late) s
              ≡ (halt (process_status (exit_status ws)), record s { host = w' }))
  leaving-halt n late ws last zero t s h e i f g = absurd (omega arith)
  leaving-halt n zero ws last (suc fuel) t s h e i f g = (
    λ _. ap (λ (r : Outcome (Unit {0}) × State W). r.0) (wait_loop-left fuel last s),
    λ k. absurd (omega arith),
  )
  leaving-halt zero (suc zero) ws last (suc (suc fuel)) t s h e (now w) f g = (
    λ _.
        ap (λ (r : Outcome (Unit {0}) × State W). r.0)
          (wait_loop-leaving (suc fuel) last ws zero s (ap (S.processes.wait_group pgid) e ∙ f)
            ∙ wait_loop-left fuel ws _),
    λ k. absurd (omega arith),
  )
  leaving-halt zero (suc (suc late)) ws last (suc (suc fuel)) t s h e (now w) f g = (
    λ k. absurd (omega arith),
    λ _.
        wait_loop-leaving (suc fuel) last ws (suc late) s (ap (S.processes.wait_group pgid) e ∙ f)
        ∙ wait_loop-late fuel ws late t _ g,
  )
  leaving-halt zero (suc late) ws last (suc zero) t s h e i f g = absurd (omega arith)
  leaving-halt (suc n) (suc late) ws last (suc fuel) t s h e (poll p i) f g =
      let rest = leaving-halt n late ws 0 fuel t _ (omega arith) refl i f g in
      let first = wait_loop-leaving fuel last 0 late s (ap (S.processes.wait_group pgid) e ∙ p) in
      (
        λ k. ap (λ (r : Outcome (Unit {0}) × State W). r.0) first ∙ rest.0 (omega arith),
        λ k. first ∙ rest.1 (omega arith),
      )

  -- The signal comes after k idle polls, and the child is found dead by the poll that follows n more.
  pub wait_loop-interrupted :
      (k n late ws last fuel : ℕ) (sig : String) {w before gone dying reaped w' : W} (t : String)
      (s : State W)
      → k + n + 3 ≤ fuel
      → s.host ≡ w
      → Idle S pgid k w before
      → S.processes.kill_group pgid before ≡ (ok tt, gone)
      → Idle S pgid n gone dying
      → S.processes.wait_group pgid dying ≡ (ok ws, reaped)
      → S.processes.wait_group pgid reaped ≡ (err (foreign Kind.no_child t), w')
      → (late ≤ n + 1 → (wait_loop S fuel pgid last (coming k sig late) s).0 ≡ halt 0)
        × (n + 2 ≤ late
            → wait_loop S fuel pgid last (coming k sig late) s
              ≡ (halt (process_status (exit_status ws)), signalled sig w' s))
  wait_loop-interrupted k n late ws last zero sig t s h e i kill j f g = absurd (omega arith)
  wait_loop-interrupted zero n late ws last (suc fuel) sig t s h e (now w) kill j f g =
      rw (wait_loop-killed fuel last late sig s (ap (S.processes.kill_group pgid) e ∙ kill))
        (leaving-halt n late ws last (suc fuel) t (signalled sig _ s) (omega arith) refl j f g)
  wait_loop-interrupted (suc k) n late ws last (suc fuel) sig t s h e (poll p i) kill j f g =
      rw (wait_loop-coming fuel last 0 k late sig s (ap (S.processes.wait_group pgid) e ∙ p))
        (wait_loop-interrupted k n late ws 0 fuel sig t _ (omega arith) refl i kill j f g)
