-- ===== src/Build.antt =====
-- build.go, the parts around the solver: the build arguments and the frontend's attributes.
pub mod Untar
pub mod Stdin
pub mod Run
pub mod Attributes
pub mod Progress
pub mod Told
pub mod Channel
pub mod Status
pub mod Shown
pub mod Solver
pub mod Failure
pub mod Cleanup
pub mod Unread
pub mod Names
use img.Common.{
  String, Bool, true, false, Option, none, some, List, [], ◌∷◌, ◌<>◌, ◌==◌, if◌then◌else◌,
}
use img.Common.Exec.{Outcome, ok, err, errorf}
use img.Common.FilePath
use img.Common.Text.{cut}
use img.Flag.{Spec, takes_value}
use img.Flag.Slice.{show}
use img.Command.{Description}

abbrev pub build_description : Description
build_description = record {
  name = "build";
  args = "[OPTIONS] PATH";
  short_help = "Build an image from a Dockerfile.";
  long_help = "Build an image from a Dockerfile.";
  hidden = false;
  do_reexec = true;
  requires_runc = true;
}

-- `Register`
unfoldable pub build_flags : List Spec
unfolding show
build_flags =
    record {
      name = "f";
      usage = "Name of the Dockerfile (Default is 'PATH/Dockerfile')";
      default = "";
      kind = takes_value;
    }
    ∷ record {
      name = "t";
      usage = "Name and optionally a tag in the 'name:tag' format";
      default = "";
      kind = takes_value;
    }
    ∷ record {
      name = "target";
      usage = "Set the target build stage to build";
      default = "";
      kind = takes_value;
    }
    ∷ record {
      name = "build-arg";
      usage = "Set build-time variables";
      default = show [];
      kind = takes_value;
    }
    ∷ []

-- The fields that `Register` ties to flags.
pub record BuildCommand : Type 0 where
  pub build_args : List String
  pub dockerfile_path : String
  pub target : String
  pub tag : String

-- A `map[string]string`
abbrev pub Attrs : Type 0
Attrs = List (String × String)

unfoldable pub without : String → Attrs → Attrs
without key [] = []
without key (entry ∷ rest) = if key == entry.0 then without key rest else entry ∷ without key rest

-- `m[key] = value`
unfoldable pub insert : String → String → Attrs → Attrs
unfolding without
insert key value attrs = (key, value) ∷ without key attrs

unfoldable pub lookup : String → Attrs → Option String
lookup key [] = none
lookup key (entry ∷ rest) = if entry.0 == key then some entry.1 else lookup key rest

abbrev pub arg_key : String → String
arg_key k = "build-arg:" <> k

-- The loop over the build arguments.
unfoldable pub add_build_args : Attrs → List String → Outcome Attrs
unfolding insert
add_build_args attrs [] = ok attrs
add_build_args attrs (arg ∷ args) = elim (cut b'=' arg) [
  | none ↦ err (errorf "invalid build-arg value %s" (arg ∷ []))
  | some (k, v) ↦ add_build_args (insert (arg_key k) v attrs) args
]

-- `frontendAttrs` before the loop.
unfoldable pub first_attrs : String → String → Attrs
first_attrs dockerfile_path target =
    ("filename", FilePath.base dockerfile_path) ∷ ("target", target) ∷ []

-- `getLocalDirs`
unfoldable pub local_dirs : String → String → Attrs
local_dirs context_dir dockerfile_path =
    ("context", context_dir) ∷ ("dockerfile", FilePath.dir dockerfile_path) ∷ []
