-- ===== src/Main.antt =====
-- main.go: the choice of the command, the checks before it runs, and the exit status.
pub mod Interface
pub mod Dispatch
pub mod Child
pub mod Interrupted
pub mod Commands
pub mod Whole
pub mod Runc
pub mod Words
pub mod Light
pub mod Printing
pub mod LoggingIn
pub mod Saving
pub mod Succeeding
pub mod Tagging
pub mod Removing
pub mod Pulling
pub mod Pushing
pub mod Refusing
pub mod CommandLine
pub mod Building
use Prim.Native.String.{String}
use img.Common.{
  ℕ, Bool, true, false, Option, none, some, List, [], ◌∷◌, ◌||◌, not, map, ◌==◌, if◌then◌else◌,
}
use img.Common.Exec.{
  Exec, Outcome, ok, err, halt, panic, diverge, Error, pure, exit, ◌>>=◌, ◌>>◌, attempt, defer,
  modify,
}
use img.Common.Output.{text, error, stderr}
use img.Common.Text.{codes, lower, contains_codes}
use img.Services.{Services}
use img.Backend.{valid_backends}
use img.Main.Interface.{Command, globals, parse_flags}
use img.Client.{State, call, lift, print, fatal}
use img.Command.{Globals}
use img.Flag.{Parsed}
use img.Binutils.{runc_binary_exists, install_runc_binary}
use img.Reexec.{Watch, reexec}

unfoldable pub contains : List String → String → Bool
contains [] b = false
contains (v ∷ vs) b = v == b || contains vs b

-- The first command of that name.
unfoldable pub find : {W : Type 0} → String → List (Command W) → Option (Command W)
find name [] = none
find name (c ∷ cs) = if name == c.description.name then some c else find name cs

-- `strings.Contains(strings.ToLower(arg), "help") || strings.ToLower(arg) == "-h"`
abbrev pub asks_help : String → Bool
asks_help arg =
    contains_codes (codes "help") (map lower (codes arg)) || (arg == "-h" || arg == "-H")

-- `len(os.Args) == 2 && …`
abbrev pub is_help : String → List String → Bool
is_help name [] = asks_help name
is_help name (_ ∷ _) = false

-- `if debug { logrus.SetLevel(logrus.DebugLevel) }`
unfoldable pub set_level : {W : Type 0} → Bool → Exec (State W) (Unit {0})
unfolding modify
set_level debug = modify (λ s. record s { verbose = if debug then true else s.verbose })

module _ {W : Type 0} (S : Services W) (watch : Watch) (commands : List (Command W)) where
  unfoldable pub print_commands : List (Command W) → Exec (State W) (Unit {0})
  print_commands [] = pure tt
  print_commands (c ∷ cs) = do
    if c.description.hidden
        then pure tt
        else print
            (stderr "\t%s\t%s\n" (text c.description.name ∷ text c.description.short_help ∷ []))
    print_commands cs

  unfoldable pub usage : Exec (State W) (Unit {0})
  unfolding print_commands
  usage = do
    print (stderr "Usage: %s <command>\n" (text "img" ∷ []))
    print (stderr "\n" [])
    print (stderr "Commands:\n" [])
    print (stderr "\n" [])
    print_commands commands
    print (stderr "\n" [])

  -- The last test: an error is printed, and `os.Exit` skips what is deferred.
  unfoldable pub finish : Outcome (Unit {0}) → Exec (State W) (Unit {0})
  finish (ok _) = pure tt
  finish (err e) = do print (stderr "%v\n" (error e ∷ [])); exit 1
  finish (halt n) = lift (halt n)
  finish panic = lift panic
  finish diverge = lift diverge

  unfoldable pub run_command :
      Command W → Globals → List (String × String) → List String → Exec (State W) (Unit {0})
  unfolding finish
  run_command c g settings args = do done ← attempt (c.run g settings args); finish done

  -- What `main` does with the directory and the error that `InstallRuncBinary` returns.
  unfoldable pub run_installed :
      Command W
      → Globals
      → List (String × String)
      → List String
      → String × Outcome (Unit {0})
      → Exec (State W) (Unit {0})
  unfolding run_command
  run_installed c g settings args (dir, ok _) =
      defer (call (S.files.remove_all dir)) (run_command c g settings args)
  run_installed c g settings args (dir, err e) = do
    _ ← attempt (call (S.files.remove_all dir))
    fatal "Installing embedded runc binary failed: %v" (error e ∷ [])
  run_installed c g settings args (dir, other) = lift other

  -- `if command.RequiresRunc() && !binutils.RuncBinaryExists()`
  unfoldable pub run_with_runc :
      Command W → Globals → List (String × String) → List String → Bool → Exec (State W) (Unit {0})
  unfolding run_installed
  run_with_runc c g settings args true = run_command c g settings args
  run_with_runc c g settings args false = do
    installed ← install_runc_binary S
    run_installed c g settings args installed

  unfoldable pub runc_ready : Bool → Exec (State W) Bool
  runc_ready false = pure true
  runc_ready true = runc_binary_exists S

  -- From the check of the backend on. The goroutine of the re-executed process ends in `reexec`.
  unfoldable pub run_parsed : List String → Command W → Parsed → Exec (State W) (Unit {0})
  unfolding run_with_runc runc_ready
  run_parsed argv c p = do
    if contains valid_backends (globals p.settings).backend
        then pure tt
        else fatal "%s is not a valid snapshots backend" (text (globals p.settings).backend ∷ [])
    if c.description.do_reexec then reexec S watch argv else pure tt
    ready ← runc_ready c.description.requires_runc
    run_with_runc c (globals p.settings) p.settings p.args ready

  unfoldable pub dispatch : String → List String → Option (Command W) → Exec (State W) (Unit {0})
  unfolding usage run_parsed parse_flags set_level
  dispatch name rest none = do
    print (stderr "%s: no such command\n" (text name ∷ []))
    usage
    exit 1
  dispatch name rest (some c) = do
    p ← parse_flags c rest
    set_level (globals p.settings).debug
    run_parsed (name ∷ rest) c p

  -- `main`, at the arguments behind the program's name.
  unfoldable pub main : List String → Exec (State W) (Unit {0})
  unfolding dispatch find contains
  main [] = do usage; exit 1
  main (name ∷ rest) =
      if is_help name rest then (do usage; exit 1) else dispatch name rest (find name commands)
