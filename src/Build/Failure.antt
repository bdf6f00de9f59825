-- ===== src/Build/Failure.antt =====
-- `img build` with a solver that fails.
use img.Common.{ℕ, String, List, [], ◌∷◌, ◌≢◌, ◌==◌}
use img.Common.Exec.{Exec, ok}
use img.Common.Group.{Schedule}
use img.Common.Group.Failure.{first_error-failed, wait_both-failed}
use img.Common.Triple.{Triple-bind, Triple-given, Triple-weaken, Triple-if, anything, never_returns}
use img.Common.Failing.{Fails, raise-Fails, defer-Fails, impossible}
use img.Services.{Services, Handle, Context}
use img.Services.Solving.{SolveRequest, Solving}
use img.Client.{State}
use img.Client.Solve.{solve-failed, lift-fails}
use img.Command.{Globals}
use img.Build.{BuildCommand}
use img.Build.Run.{Request, build_with, build_in, build_context, run_build}
use img.Build.Solver.{solve_image, run_build_image}

module _ {W : Type 0} (S : Services W) (fuel : ℕ) (solver : Request → Exec (State W) (Unit {0}))
    (fails : (r : Request) → Fails (solver r)) (g : Globals) (cmd : BuildCommand) where
  build_with-Fails : (tag dir path : String) → Fails (build_with S fuel solver g cmd tag dir path)
  unfolding build_with
  build_with-Fails tag dir path = Triple-bind (anything _) λ c. Triple-bind (anything _) λ _.
      Triple-bind (anything _) λ attrs.
        Triple-bind (anything _)
          λ _. Triple-bind (anything _) λ _. Triple-bind (fails _) λ _. impossible _

  build_in-Fails : (dir path : String) → Fails (build_in S fuel solver g cmd dir path)
  unfolding build_in
  build_in-Fails dir path =
      Triple-bind (anything _) λ named. Triple-bind (anything _) λ p. build_with-Fails _ dir p

  build_context-Fails : (dir path : String) → Fails (build_context S fuel solver g cmd dir path)
  unfolding build_context
  build_context-Fails dir path = Triple-if (dir == "") (raise-Fails _) (
      Triple-if (dir == "-") (Triple-bind (anything _) λ d. defer-Fails _ _ (build_in-Fails d path))
        (build_in-Fails dir path))

  run_build-Fails : (args : List String) → Fails (run_build S fuel solver g cmd args)
  unfolding run_build
  run_build-Fails [] = raise-Fails _
  run_build-Fails (dir ∷ _) = Triple-if (cmd.tag == "") (raise-Fails _) (
      Triple-if (cmd.dockerfile_path == "-")
        (Triple-bind (anything _) λ p. defer-Fails _ _ (build_context-Fails dir p))
        (build_context-Fails dir cmd.dockerfile_path))

module _ {W : Type 0} (S : Services W) (T : Solving W)
    (refuses : (h : Handle) (ctx : Context) (req : SolveRequest) (w : W)
      → (T.solve h ctx req w).0 ≢ ok tt) where
  solve_image-Fails : (turn inner : Schedule) (r : Request) → Fails (solve_image S T turn inner r)
  unfolding solve_image
  solve_image-Fails turn inner r = Triple-bind (anything _) λ sess. Triple-bind (anything _) λ id.
      Triple-bind (anything _) λ _.
        Triple-bind
          (Triple-weaken
            (wait_both-failed _ _ _
              (λ s a e. solve-failed S T inner _ _ (λ h w. refuses h _ _ w) s e) turn)
            (λ r s h. (tt, h)))
          λ waited. Triple-given {Fact = waited.1 ≢ ok tt} λ failed.
            Triple-bind (anything _) λ shown. record {
              at = λ s h.
                  (lift-fails S T inner _).at s (first_error-failed waited.1 shown (λ a. failed));
            }

  -- Where the controller's `Solve` does not succeed, `img build` does not, whatever its arguments are
  -- and whichever goroutines return first.
  pub run_build_image-failed :
      (turn inner : Schedule) (fuel : ℕ) (g : Globals) (cmd : BuildCommand) (args : List String)
      (s : State W)
      → (run_build_image S T turn inner fuel g cmd args s).0 ≢ ok tt
  unfolding run_build_image
  run_build_image-failed turn inner fuel g cmd args s =
      never_returns
        (run_build-Fails S fuel (solve_image S T turn inner) (solve_image-Fails turn inner) g cmd
          args)
        s tt tt
