-- ===== src/Reexec/Waiting.antt =====
-- The loop of `reexec` that polls for the child, and the status that it ends with.
use Prim.Native.Nat.{ℕ, zero, suc, ◌%◌}
use img.Common.{false, ◌≡◌, refl}
use img.Common.Exec.{ok, ◌>>=◌}
use img.Common.Text.{same_code}
use img.Services.{Services}
use img.Client.{State, call}
use img.Reexec.{exit_status, process_status, quiet, wait_loop}

-- The status of a process whose child did not exit of itself: `os.Exit(-1)`.
pub unexited : (ws : ℕ) → same_code (ws % 128) 0 ≡ false → process_status (exit_status ws) ≡ 255
unfolding process_status exit_status
unexited ws h = rw h refl

module _ {W : Type 0} (S : Services W) (pgid : ℕ) where
  -- The host goes from the first state to the second in that many polls that find nothing.
  pub data Idle : ℕ → W → W → Type 0 where
    now : (w : W) → Idle zero w w
    poll :
        {n : ℕ} {w w' w'' : W}
        → S.processes.wait_group pgid w ≡ (ok 0, w')
        → Idle n w' w''
        → Idle (suc n) w w''

  pub wait_loop-ok :
      (fuel last ws : ℕ) {w' : W} (s : State W)
      → S.processes.wait_group pgid s.host ≡ (ok ws, w')
      → wait_loop S (suc fuel) pgid last quiet s
        ≡ wait_loop S fuel pgid ws quiet (record s { host = w' })
  unfolding wait_loop call ◌>>=◌
  wait_loop-ok fuel last ws s h = rw h refl
