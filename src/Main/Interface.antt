-- ===== src/Main/Interface.antt =====
-- The interface `command` of main.go, the flags of a command, and its usage text.
use Prim.Native.String.{String}
use img.Common.{Bool, true, false, List, [], ◌∷◌, ◌++◌, ◌==◌, if◌then◌else◌}
use img.Common.Exec.{
  Exec, Outcome, ok, err, halt, panic, diverge, Error, Kind, foreign, pure, exit, ◌>>=◌, ◌>>◌,
  attempt,
}
use img.Common.Output.{text, error, stderr}
use img.Common.Text.{trim_space}
use img.Backend.{auto_backend}
use img.Client.{State, lift, print}
use img.Command.{Description, Globals}
use img.Flag
use img.Flag.{Parsed, Spec}
use img.Flag.Order.{sorted}

-- The interface `command`: `Register` adds flags to the global ones, and `Run` takes the settings of
-- its flags and the arguments that are left.
pub record Command (W : Type 0) : Type 0 where
  pub description : Description
  pub register : List Spec
  pub run : Globals → List (String × String) → List String → Exec (State W) (Unit {0})

abbrev pub default_state_directory : String
default_state_directory = "/tmp/img"

-- The flags that `main` itself puts into the flag set.
abbrev pub global_flags : List Spec
global_flags =
    record { name = "d"; usage = "enable debug logging"; default = "false"; kind = Flag.switch }
    ∷ record {
      name = "backend";
      usage = "backend for snapshots ([auto native overlayfs])";
      default = auto_backend;
      kind = Flag.takes_value;
    }
    ∷ record {
      name = "state";
      usage = "directory to hold the global state";
      default = default_state_directory;
      kind = Flag.takes_value;
    }
    ∷ []

-- The global flags and those of a command.
abbrev pub flag_set : {W : Type 0} → Command W → List Spec
flag_set c = global_flags ++ c.register

abbrev pub globals : List (String × String) → Globals
globals settings = record {
  backend = Flag.setting "backend" auto_backend settings;
  state_dir = Flag.setting "state" default_state_directory settings;
  debug = Flag.setting "d" "false" settings == "true";
}

abbrev pub shown_default : String → String
shown_default default = if default == "" then "<none>" else default

abbrev pub is_help_requested : Error → Bool
is_help_requested (foreign Kind.help_requested _) = true
is_help_requested _ = false

module _ {W : Type 0} where
  -- `flagBlock`, with the columns as `tabwriter` is given them.
  unfoldable pub print_flags : List Spec → Exec (State W) (Unit {0})
  print_flags [] = pure tt
  print_flags (f ∷ fs) = do
    print (
        stderr "\t-%s\t%s (default: %s)\n"
          (text f.name ∷ text f.usage ∷ text (shown_default f.default) ∷ []))
    print_flags fs

  -- `if hasFlags { … }`
  unfoldable pub print_flag_block : List Spec → Exec (State W) (Unit {0})
  unfolding print_flags
  print_flag_block [] = pure tt
  print_flag_block (f ∷ fs) = do
    print (stderr "Flags:\n" [])
    print (stderr "\n" [])
    print_flags (f ∷ fs)
    print (stderr "\n" [])

  -- The `Usage` that `resetUsage` puts into the flag set.
  unfoldable pub show_usage : Description → List Spec → Exec (State W) (Unit {0})
  unfolding print_flag_block sorted trim_space
  show_usage d flags = do
    print (stderr "Usage: %s %s %s\n" (text "img" ∷ text d.name ∷ text d.args ∷ []))
    print (stderr "\n" [])
    print (stderr "%s\n" (text (trim_space d.long_help) ∷ []))
    print (stderr "\n" [])
    print_flag_block (sorted flags)

  -- What `Parse` does under `flag.ExitOnError`: it prints an error, unless help was asked for, and
  -- the usage text, and ends the process. So the branch of `main` for an error is never taken.
  unfoldable pub parsed_or_exit : Command W → Outcome Parsed → Exec (State W) Parsed
  unfolding show_usage
  parsed_or_exit c (ok p) = pure p
  parsed_or_exit c (err e) = do
    if is_help_requested e then pure tt else print (stderr "%v\n" (error e ∷ []))
    show_usage c.description (flag_set c)
    exit 2
  parsed_or_exit c (halt n) = lift (halt n)
  parsed_or_exit c panic = lift panic
  parsed_or_exit c diverge = lift diverge

  unfoldable pub parse_flags : Command W → List String → Exec (State W) Parsed
  unfolding parsed_or_exit Flag.kind_of
  parse_flags c rest = do
    parsed ← attempt (lift (Flag.parse (Flag.kind_of (flag_set c)) rest))
    parsed_or_exit c parsed
