-- ===== src/Examples/Unread.antt =====
-- A plain tar archive on the standard input of `img build -`.
use img.Common.{true, none, [], ◌∷◌, ◌≡◌, refl}
use img.Common.Exec.{Exec, Error, err, errorf, caused, pure}
use img.Services.{Services}
use img.Client.{State}
use img.Build.{BuildCommand}
use img.Build.Run.{Request, run_build}
use img.Build.Stdin.{is_archive}
use img.Build.Unread.{run_build-unread}
use img.Fixture.{World, memory, give}
use img.Fixture.Data.{running, usual}

abbrev no_gzip : Error
no_gzip = errorf "gzip: invalid header" []

abbrev plain_tar : Services World
plain_tar = record memory {
  inputs = record memory.inputs {
    peek_stdin = λ n. give ("Dockerfile", none);
    is_tar_header = λ s. true;
    new_gzip_reader = λ w. (err no_gzip, w);
  };
}

abbrev plain_build : BuildCommand
plain_build = record { build_args = []; dockerfile_path = ""; target = ""; tag = "a" }

abbrev solved : Request → Exec (State World) (Unit {0})
solved r = pure tt

archive : is_archive plain_tar "Dockerfile" ≡ true
unfolding is_archive
archive = refl

run_build-unread_example :
    run_build plain_tar 5 solved usual plain_build ("-" ∷ []) running
    ≡ (err (caused "reading context from stdin failed: %v" [] no_gzip), running)
run_build-unread_example =
    run_build-unread plain_tar 5 solved usual plain_build [] "/tmp/dir" "Dockerfile" none no_gzip
      running refl refl refl refl tt archive refl
