-- ===== src/Main/Commands.antt =====
-- The ten commands of main.go, each as its settings and arguments reach its `Run`.
use img.Common.{ℕ, String, List, [], ◌∷◌, ◌==◌}
use img.Common.Exec.{Exec}
use img.Common.Group.{Schedule}
use img.Services.{Services}
use img.Services.Accounts.{Accounts}
use img.Services.Solving.{Solving}
use img.Client.{State}
use img.Flag.{setting}
use img.Flag.Slice.{set_all}
use img.Command.Tag.{tag_description, tag_flags, run_tag}
use img.Command.Remove.{remove_description, remove_flags, run_remove}
use img.Command.Save.{save_description, save_flags, run_save}
use img.Command.Listing.{list_description, list_flags, run_list}
use img.Command.Usage.{usage_description, usage_flags, run_usage}
use img.Command.Pull.{pull_description, pull_flags, run_pull}
use img.Command.Push.{push_description, push_flags, run_push}
use img.Command.Version.{Build, version_description, version_flags, run_version}
use img.Build.{BuildCommand, build_description, build_flags}
use img.Build.Solver.{run_build_image}
use img.Login.{LoginCommand, login_description, login_flags, run_login}
use img.Reexec.{Handler, Watch}
use img.Main.{main}
use img.Main.Interface.{Command}

-- All that a run of the program stands on: the services, the order in which goroutines return, when a
-- signal comes to `reexec`, and fuel for the two loops.
pub record Setup (W : Type 0) : Type 0 where
  pub services : Services W
  pub accounts : Accounts W
  pub solving : Solving W
  pub build : Build
  pub turn : Schedule
  pub inner : Schedule
  pub handler : Handler
  pub fuel : ℕ

-- What the flags of `build` leave in its fields.
abbrev pub build_fields : List (String × String) → BuildCommand
build_fields settings = record {
  build_args = set_all "build-arg" [] settings;
  dockerfile_path = setting "f" "" settings;
  target = setting "target" "" settings;
  tag = setting "t" "" settings;
}

abbrev pub login_fields : List (String × String) → LoginCommand
login_fields settings = record {
  user = setting "u" "" settings;
  password = setting "p" "" settings;
  password_stdin = setting "password-stdin" "false" settings == "true";
  server_address = "";
}

module _ {W : Type 0} (H : Setup W) where
  open H use {services, accounts, solving, build, turn, inner, handler, fuel}

  abbrev pub watch : Watch
  watch = record { handler = handler; fuel = fuel }

  abbrev pub build_command : Command W
  build_command = record {
    description = build_description;
    register = build_flags;
    run = λ g settings args.
        run_build_image services solving turn inner fuel g (build_fields settings) args;
  }

  abbrev pub usage_command : Command W
  usage_command = record {
    description = usage_description;
    register = usage_flags;
    run = λ g settings args. run_usage services g (setting "f" "" settings);
  }

  abbrev pub list_command : Command W
  list_command = record {
    description = list_description;
    register = list_flags;
    run = λ g settings args. run_list services g (set_all "f" [] settings);
  }

  abbrev pub login_command : Command W
  login_command = record {
    description = login_description;
    register = login_flags;
    run = λ g settings args. run_login services accounts g (login_fields settings) args;
  }

  abbrev pub pull_command : Command W
  pull_command = record {
    description = pull_description;
    register = pull_flags;
    run = λ g settings args. run_pull services turn g args;
  }

  abbrev pub push_command : Command W
  push_command = record {
    description = push_description;
    register = push_flags;
    run = λ g settings args.
        run_push services turn g (setting "insecure-registry" "false" settings == "true") args;
  }

  abbrev pub remove_command : Command W
  remove_command = record {
    description = remove_description;
    register = remove_flags;
    run = λ g settings args. run_remove services g args;
  }

  abbrev pub save_command : Command W
  save_command = record {
    description = save_description;
    register = save_flags;
    run = λ g settings args. run_save services g (setting "o" "" settings) args;
  }

  abbrev pub tag_command : Command W
  tag_command = record {
    description = tag_description;
    register = tag_flags;
    run = λ g settings args. run_tag services g args;
  }

  abbrev pub version_command : Command W
  version_command = record {
    description = version_description;
    register = version_flags;
    run = λ g settings args. run_version build;
  }

  -- The list at the top of `main`.
  abbrev pub commands : List (Command W)
  commands =
      build_command ∷ usage_command ∷ list_command ∷ login_command ∷ pull_command ∷ push_command
      ∷ remove_command ∷ save_command ∷ tag_command ∷ version_command ∷ []

  -- The whole program, at the arguments behind its name.
  unfoldable pub program : List String → Exec (State W) (Unit {0})
  unfolding main
  program = main services watch commands
