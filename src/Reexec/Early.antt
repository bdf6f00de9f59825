-- ===== src/Reexec/Early.antt =====
-- reexec.go when a signal comes between the start of the child and the look-up of its group.
use mathlib.Core.Path.{subst}
use img.Common.{ℕ, String, true, some, List, ◌≡◌, ◌≢◌, refl, ◌∙◌}
use img.Common.Exec.{ok, halt, ◌>>=◌}
use img.Services.{Services}
use img.Client.{State, call, lift, print}
use img.Reexec.{coming, needs_reexec, reexec, start_and_wait, signal_turn}
use img.Reexec.Observed.{Sight, Starts, Kills, Observed}

module _ {W : Type 0} {S : Services W} {V : Sight W} (L : Observed S V) (args : List String)
    (s : State W) {asked : W} where
  -- Where the calls behave as documented, the re-execution is needed, the child starts, `Kill` of group 0
  -- ends the process, and the signal comes between the start and the call of `Getpgid`: the process
  -- ends by killing group 0, which is its own, and not the group of the child that it started.
  pub reexec-early :
      (pid n m fuel : ℕ) (sig : String)
      → needs_reexec S s ≡ (ok true, record s { host = asked })
      → let begun = S.processes.start_self args "IMG_DO_UNSHARE=1" asked in
        begun.0 ≡ ok pid
        → (S.processes.kill_group 0 begun.1).0 ≡ halt n
        → let r = reexec S (record { handler = coming 1 sig m; fuel = fuel }) args s in
          (r.0 ≡ halt n)
          × (V.killed r.1.host ≡ some 0)
          × ((g : ℕ) × (V.child r.1.host ≡ some g) × (g ≢ 0))
  unfolding reexec start_and_wait signal_turn call lift print ◌>>=◌
  reexec-early pid n m fuel sig needed begun killed =
      let w = (S.processes.start_self args "IMG_DO_UNSHARE=1" asked).1 in
      let child = subst (Starts V S asked w) begun (L.start args "IMG_DO_UNSHARE=1" asked) in
      let own = subst (Kills V 0 w (S.processes.kill_group 0 w).1) killed (L.kill 0 w) in
      (
        rw (needed, begun, killed) refl,
        rw (needed, begun, killed) own.1.killed,
        (child.group, rw (needed, begun, killed) (own.1.child ∙ child.child), child.nonzero),
      )
