-- ===== src/Main/CommandLine.antt =====
-- Command lines of `img build` that say what its fields and the global flags are.
use mathlib.Core.List.{append-nil, append_assoc}
use img.Common.{String, Bool, true, false, List, [], ◌∷◌, ◌++◌, ◌≡◌, refl, sym, ap, ◌∙◌, ◌==◌}
use img.Common.Exec.{ok, ◌>>=◌}
use img.Common.Text.{cut}
use img.Client.{State, lift}
use img.Command.{Globals}
use img.Flag
use img.Flag.{Parsed, add_setting}
use img.Flag.Slice.{set_all}
use img.Build.{BuildCommand, build_flags}
use img.Main.Interface.{globals, flag_set, parse_flags, parsed_or_exit}
use img.Main.Commands.{Setup, build_fields, build_command}

-- One `-build-arg` for each build argument.
abbrev pub arg_words : List String → List String → List String
arg_words [] rest = rest
arg_words (v ∷ vs) rest = "-build-arg" ∷ v ∷ arg_words vs rest

abbrev pub debug_words : Bool → List String → List String
debug_words true rest = "-d" ∷ rest
debug_words false rest = "-d=0" ∷ rest

-- Every field with its flag, in both of the ways to give a value, and the arguments behind `--`.
abbrev pub command_line : Globals → BuildCommand → List String → List String
command_line g cmd args =
    "-state"
    ∷ g.state_dir
    ∷ "--backend"
    ∷ g.backend
    ∷ "-f"
    ∷ cmd.dockerfile_path
    ∷ "--target"
    ∷ cmd.target
    ∷ "-t"
    ∷ cmd.tag
    ∷ debug_words g.debug (arg_words cmd.build_args ("--" ∷ args))

abbrev pub arg_settings : List String → List (String × String)
arg_settings [] = []
arg_settings (v ∷ vs) = ("build-arg", v) ∷ arg_settings vs

abbrev pub debug_text : Bool → String
debug_text true = "true"
debug_text false = "false"

abbrev pub parsed_line : Globals → BuildCommand → List String → Parsed
parsed_line g cmd args = record {
  settings =
      ("state", g.state_dir)
      ∷ ("backend", g.backend)
      ∷ ("f", cmd.dockerfile_path)
      ∷ ("target", cmd.target)
      ∷ ("t", cmd.tag)
      ∷ ("d", debug_text g.debug)
      ∷ arg_settings cmd.build_args;
  args = args;
}

module _ {W : Type 0} (H : Setup W) where
  parse-arg_words :
      (vs args : List String)
      → Flag.parse (Flag.kind_of (flag_set (build_command H))) (arg_words vs ("--" ∷ args))
        ≡ ok (record { settings = arg_settings vs; args = args })
  unfolding Flag.parse Flag.kind_of build_flags cut
  parse-arg_words [] args = refl
  parse-arg_words (v ∷ vs) args = ap (add_setting "build-arg" v) (parse-arg_words vs args)

  parse-debug_words :
      (b : Bool) (vs args : List String)
      → Flag.parse
          (Flag.kind_of (flag_set (build_command H)))
          (debug_words b (arg_words vs ("--" ∷ args)))
        ≡ ok (record { settings = ("d", debug_text b) ∷ arg_settings vs; args = args })
  unfolding Flag.parse Flag.kind_of build_flags cut
  parse-debug_words true vs args = ap (add_setting "d" "true") (parse-arg_words vs args)
  parse-debug_words false vs args = ap (add_setting "d" "false") (parse-arg_words vs args)

setting-arg_settings :
    (name default : String) (vs : List String)
    → ("build-arg" == name) ≡ false
    → Flag.setting name default (arg_settings vs) ≡ default
unfolding Flag.setting
setting-arg_settings name default [] e = refl
setting-arg_settings name default (v ∷ vs) e =
    rw (Flag.setting, e) (setting-arg_settings name default vs e)

set_all-arg_settings :
    (slice vs : List String) → set_all "build-arg" slice (arg_settings vs) ≡ slice ++ vs
unfolding set_all
set_all-arg_settings slice [] = sym (append-nil slice)
set_all-arg_settings slice (v ∷ vs) =
    set_all-arg_settings (slice ++ (v ∷ [])) vs ∙ append_assoc slice (v ∷ []) vs

debug_text-lem : (b : Bool) → (debug_text b == "true") ≡ b
debug_text-lem true = refl
debug_text-lem false = refl

module _ (g : Globals) (cmd : BuildCommand) (args : List String) where
  pub parse-command_line :
      {W : Type 0} (H : Setup W)
      → Flag.parse (Flag.kind_of (flag_set (build_command H))) (command_line g cmd args)
        ≡ ok (parsed_line g cmd args)
  unfolding Flag.parse Flag.kind_of build_flags cut
  parse-command_line H =
      ap
        (λ r. add_setting "state" g.state_dir (
          add_setting "backend" g.backend (
            add_setting "f" cmd.dockerfile_path
              (add_setting "target" cmd.target (add_setting "t" cmd.tag r)))))
        (parse-debug_words H g.debug cmd.build_args args)

  pub globals-parsed_line : globals (parsed_line g cmd args).settings ≡ g
  unfolding Flag.setting
  globals-parsed_line =
      rw
        (
          setting-arg_settings "backend" g.backend cmd.build_args refl,
          setting-arg_settings "state" g.state_dir cmd.build_args refl,
          setting-arg_settings "d" (debug_text g.debug) cmd.build_args refl,
          debug_text-lem g.debug,
        )
        refl

  pub build_fields-parsed_line : build_fields (parsed_line g cmd args).settings ≡ cmd
  unfolding Flag.setting set_all
  build_fields-parsed_line =
      rw
        (
          set_all-arg_settings [] cmd.build_args,
          setting-arg_settings "f" cmd.dockerfile_path cmd.build_args refl,
          setting-arg_settings "target" cmd.target cmd.build_args refl,
          setting-arg_settings "t" cmd.tag cmd.build_args refl,
        )
        refl

  -- What a command line of `img build` says comes back: the flags parse, in any state and without a
  -- change to it, and give these global flags, these fields of the command and these arguments,
  -- whatever the texts are.
  pub parse_flags-command_line :
      {W : Type 0} (H : Setup W) (s : State W)
      → (p : Parsed) × (parse_flags (build_command H) (command_line g cmd args) s ≡ (ok p, s))
        × (globals p.settings ≡ g)
        × (build_fields p.settings ≡ cmd)
        × (p.args ≡ args)
  unfolding parse_flags parsed_or_exit lift ◌>>=◌
  parse_flags-command_line H s = (
    parsed_line g cmd args,
    rw (parse-command_line H) refl,
    globals-parsed_line,
    build_fields-parsed_line,
    refl,
  )
