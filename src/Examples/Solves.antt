-- ===== src/Examples/Solves.antt =====
-- `img build` with a solver that fails, in the host in memory.
use img.Common.{[], ◌∷◌, ◌≢◌}
use img.Common.Exec.{ok, err, errorf}
use img.Common.Group.{body_first}
use img.Services.Solving.{Solving}
use img.Fixture.{World, memory, give}
use img.Fixture.Data.{running, usual}
use img.Build.{BuildCommand}
use img.Build.Solver.{run_build_image}
use img.Build.Failure.{run_build_image-failed}

abbrev pub broken : Solving World
broken = record {
  solve = λ h ctx req w. (err (errorf "exit code 1" []), w);
  status = λ h ref. give ([], ok tt);
  console = λ w. (err (errorf "no console" []), w);
  display = λ c sent. give tt;
}

abbrev here : BuildCommand
here = record { build_args = []; dockerfile_path = ""; target = ""; tag = "app" }

run_build_image-failed_example :
    (run_build_image memory broken body_first body_first 9 usual here ("." ∷ []) running).0 ≢ ok tt
run_build_image-failed_example =
    run_build_image-failed memory broken (λ h ctx req w e. cc) body_first body_first 9 usual here
      ("." ∷ []) running
