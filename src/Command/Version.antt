-- ===== src/Command/Version.antt =====
-- version.go and version/version.go
use img.Common.{String, false, List, [], ◌∷◌}
use img.Common.Exec.{Exec}
use img.Common.Output.{text, stdout}
use img.Client.{State, print}
use img.Flag.{Spec}
use img.Command.{Description}

abbrev pub version_description : Description
version_description = record {
  name = "version";
  args = "";
  short_help = "Show the version information.";
  long_help = "Show the version information.";
  hidden = false;
  do_reexec = false;
  requires_runc = false;
}

-- `Register`
abbrev pub version_flags : List Spec
version_flags = []

-- The values that the build and the runtime give.
pub record Build : Type 0 where
  pub version : String
  pub git_commit : String
  pub go_version : String
  pub compiler : String
  pub goos : String
  pub goarch : String

-- `Run`
unfoldable pub run_version : {W : Type 0} → Build → Exec (State W) (Unit {0})
run_version b = print (
    stdout
      "%s:\n version     : %s\n git hash    : %s\n go version  : %s\n go compiler : %s\n platform    : %s/%s\n"
      (text "img"
        ∷ text b.version
        ∷ text b.git_commit
        ∷ text b.go_version
        ∷ text b.compiler
        ∷ text b.goos
        ∷ text b.goarch
        ∷ []))
