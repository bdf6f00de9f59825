-- ===== src/Examples/Cleanups.antt =====
-- Builds from the standard input, in the host in memory.
use img.Common.{String, false, [], ◌∷◌, ◌≡◌, refl}
use img.Common.Exec.{Exec, pure, ◌>>=◌}
use img.Client.{State, call, lift, set_client, print}
use img.Command.{Globals}
use img.Build.{BuildCommand}
use img.Build.Cleanup.{run_build-removes_dockerfile}
use img.Build.Run.{Request, run_build}
use img.Build.Stdin.{dockerfile_from_stdin}
use img.Fixture.{World, memory}
use img.Fixture.Data.{running}

abbrev flags : Globals
flags = record { backend = "native"; state_dir = "/tmp/img"; debug = false }

abbrev from : String → BuildCommand
from path = record { build_args = []; dockerfile_path = path; target = ""; tag = "a" }

abbrev solved : Request → Exec (State World) (Unit {0})
solved r = pure tt

run_build-removes_dockerfile_example :
    (w : World) × ((run_build memory 9 solved flags (from "-") ("." ∷ []) running).1.host
      ≡ (memory.files.remove_all "/tmp/file" w).1)
unfolding run_build dockerfile_from_stdin ◌>>=◌ call lift set_client print
run_build-removes_dockerfile_example =
    run_build-removes_dockerfile memory 9 solved flags (from "-") "/tmp/file" "." [] running refl
      refl refl tt
