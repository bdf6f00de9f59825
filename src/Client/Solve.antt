-- ===== src/Client/Solve.antt =====
-- client/solve.go: the controller's `Solve` and `Status` run side by side. What `Status` sends goes over
-- the channel, of which the state holds all that was sent; Build/Channel has the turns of the goroutines
-- and the delay after which the status is cancelled.
pub mod Names
use img.Common.{String, List, ◌++◌, [], Option, none, some, ◌≢◌, refl}
use img.Common.Exec.{
  Exec, Outcome, ok, err, halt, panic, diverge, caused, pure, ◌>>=◌, ◌>>◌, or_fail, gets, modify,
}
use img.Common.Group.{Schedule, wait_both}
use img.Common.Group.Failure.{IsFailed, wait_both-failed, wrap_error-IsFailed}
use img.Common.Triple.{Triple, Triple-bind, anything, never_returns}
use img.Services.{Services, Handle, Context}
use img.Services.Progress.{StatusResponse}
use img.Services.Solving.{SolveRequest, Solving}
use img.Client.{State, call, lift}
use img.Client.Controller.{controller_or_new, use_controller}

module _ {W : Type 0} (S : Services W) (T : Solving W) (turn : Schedule) where
  -- The calls of `Send`, and the result of `Status`.
  unfoldable pub report : List StatusResponse × Outcome (Unit {0}) → Exec (State W) (Unit {0})
  report (sent, returned) = do modify (λ s. record s { channel = s.channel ++ sent }); lift returned

  unfoldable pub follow_status : Option Handle → String → Exec (State W) (Unit {0})
  unfolding report use_controller
  follow_status made ref = do r ← use_controller S (λ h. T.status h ref) made; report r

  -- `Solve`. The schedule's session is the call of `Status`.
  unfoldable pub solve : Context → SolveRequest → Exec (State W) (Unit {0})
  unfolding controller_or_new use_controller wait_both follow_status
  solve ctx req = do
    field ← gets (λ s. s.client.controller)
    controller_or_new S field
    made ← gets (λ s. s.client.controller)
    (_, waited) ←
        wait_both turn (follow_status made req.ref) (pure tt)
          (or_fail (caused "failed to solve" []) (use_controller S (λ h. T.solve h ctx req) made))
    lift waited

  pub lift-fails :
      (o : Outcome (Unit {0}))
      → Triple (λ (s : State W). o ≢ ok tt) (lift o) (λ _ _. ⊥) (λ _. Unit {0})
  unfolding lift
  lift-fails (ok tt) = record { at = λ s h. h refl }
  lift-fails (err e) = record { at = λ s h. tt }
  lift-fails (halt n) = record { at = λ s h. tt }
  lift-fails panic = record { at = λ s h. tt }
  lift-fails diverge = record { at = λ s h. tt }

  module _ (ctx : Context) (req : SolveRequest)
      (fails : (h : Handle) (w : W) → (T.solve h ctx req w).0 ≢ ok tt) where
    solver-fails :
        (made : Option Handle) (s : State W)
        → IsFailed
            (or_fail
              (caused "failed to solve" [])
              (use_controller S (λ h. T.solve h ctx req) made)
              s).0
    unfolding or_fail use_controller call
    solver-fails none s = λ a e. cc
    solver-fails (some h) s =
        wrap_error-IsFailed _ (T.solve h ctx req s.host).0 (λ a e. fails h s.host e)

    -- Where the controller's `Solve` does not succeed, `Solve` does not, from any state, whatever
    -- `Status` returns and whichever of the two returns first.
    pub solve-failed : (s : State W) → (solve ctx req s).0 ≢ ok tt
    unfolding solve
    solve-failed s =
        never_returns
          (Triple-bind (anything _) λ field. Triple-bind (anything _) λ _.
            Triple-bind (anything _) λ made.
              Triple-bind (wait_both-failed _ _ _ (solver-fails made) turn) λ r. lift-fails r.1)
          s tt tt
