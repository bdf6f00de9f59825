-- ===== src/Build/Solver.antt =====
-- `Run` of build.go with the solver: the session, and the goroutines that serve it and that solve.
-- The third one, `showProgress`, ends behind the close of the channel: it is taken to return last.
use img.Common.{ℕ, String, List, [], ◌∷◌, none}
use img.Common.Exec.{Exec, ◌>>=◌, ◌>>◌, attempt, modify}
use img.Common.Group.{Schedule, first_error, wait_both}
use img.Services.{Services}
use img.Services.Solving.{Solving}
use img.Client.{State, call, lift, session}
use img.Client.Solve
use img.Command.{Globals, buildkit_context}
use img.Build.{BuildCommand}
use img.Build.Shown.{show_progress}
use img.Build.Run.{Request, run_build}

module _ {W : Type 0} (S : Services W) (T : Solving W) (turn inner : Schedule) where
  -- From the session to the end of `eg.Wait`.
  unfoldable pub solve_image : Request → Exec (State W) (Unit {0})
  unfolding session wait_both show_progress
  solve_image request = do
    (sess, dialer) ← session S (record { namespace = none; session = none })
    id ← call S.sessions.new_id
    let ctx = buildkit_context (S.sessions.id sess)
    modify (λ s. record s { channel = [] })
    (_, waited) ←
        wait_both turn (call (S.sessions.run sess ctx dialer)) (call (S.sessions.close sess)) (
          Solve.solve S T inner ctx (record {
            ref = id;
            session = S.sessions.id sess;
            exporter = "image";
            exporter_attrs = ("name", request.tag) ∷ [];
            frontend = "dockerfile.v0";
            frontend_attrs = request.attrs;
          }))
    shown ← attempt (show_progress T)
    lift (first_error waited shown)

  -- `Run` of `img build`.
  unfoldable pub run_build_image :
      ℕ → Globals → BuildCommand → List String → Exec (State W) (Unit {0})
  unfolding solve_image run_build
  run_build_image fuel = run_build S fuel solve_image
