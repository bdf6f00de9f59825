-- ===== src/Examples/Commands.antt =====
-- The whole program, in the host in memory.
use img.Common.{true, [], ◌∷◌, ◌≡◌, refl, inl}
use img.Common.Group.{body_first}
use img.Common.Exec.{ok}
use img.Common.Triple.{Triple}
use img.Command.Tag.Names.{Named, Retagged}
use img.Flag.{Parsed, shape}
use img.Build.{BuildCommand}
use img.Command.{Globals}
use img.Fixture.{World, memory, desk}
use img.Fixture.Data.{running, start}
use img.Fixture.Lawful.{memory-IsLawful}
use img.Reexec.{quiet}
use img.Main.Commands.{Setup, build_fields, build_command, program}
use img.Main.Interface.{globals, parse_flags}
use img.Main.CommandLine.{command_line, parse_flags-command_line}
use img.Main.Whole.{defaults}
use img.Main.Tagging.{program-tag}
use img.Main.Removing.{program-remove}
use img.Main.Pulling.{program-pull}
use img.Main.Pushing.{program-push}
use img.Command.Remove.Names.{Emptied, PartlyEmptied}
use img.Command.Push.Names.{Pushed}
use img.Command.Pull.Names.{Fetched, MaybeFetched}
use img.Examples.Solves.{broken}

abbrev pub host : Setup World
host = record {
  services = memory;
  accounts = desk;
  solving = broken;
  build = record {
    version = "v0";
    git_commit = "abc";
    go_version = "go1.10";
    compiler = "gc";
    goos = "linux";
    goarch = "amd64";
  };
  turn = body_first;
  inner = body_first;
  handler = quiet;
  fuel = 9;
}

program-tag_example :
    Triple
      (Named memory-IsLawful start.names)
      (program host ("tag" ∷ "a" ∷ "b" ∷ []))
      (λ _. Retagged memory-IsLawful start.names defaults (inl refl) "a" "b")
      (Named memory-IsLawful start.names)
unfolding shape
program-tag_example = program-tag host memory-IsLawful start.names (λ w. refl) "a" "b" refl

abbrev fields : BuildCommand
fields = record { build_args = "A=1" ∷ "-f" ∷ []; dockerfile_path = "-"; target = ""; tag = "a=b" }

abbrev flags : Globals
flags = record { backend = "native"; state_dir = "--"; debug = true }

parse_flags-command_line_example :
    (p : Parsed) × (parse_flags (build_command host) (command_line flags fields ("-" ∷ [])) running
      ≡ (ok p, running))
    × (globals p.settings ≡ flags)
    × (build_fields p.settings ≡ fields)
    × (p.args ≡ "-" ∷ [])
parse_flags-command_line_example = parse_flags-command_line flags fields ("-" ∷ []) host running

program-remove_example :
    Triple
      (Named memory-IsLawful start.names)
      (program host ("rm" ∷ "a" ∷ "b" ∷ []))
      (λ _. Emptied memory-IsLawful start.names defaults (inl refl) ("a" ∷ "b" ∷ []))
      (PartlyEmptied memory-IsLawful start.names defaults (inl refl) ("a" ∷ "b" ∷ []))
unfolding shape
program-remove_example =
    program-remove host memory-IsLawful start.names (λ w. refl) "a" ("b" ∷ []) refl

program-pull_example :
    Triple
      (Named memory-IsLawful start.names)
      (program host ("pull" ∷ "a" ∷ []))
      (λ _. Fetched memory-IsLawful start.names defaults (inl refl) "a")
      (MaybeFetched memory-IsLawful start.names defaults (inl refl) "a")
unfolding shape
program-pull_example = program-pull host memory-IsLawful start.names (λ w. refl) "a" refl

program-push_example :
    Triple
      (Named memory-IsLawful start.names)
      (program host ("push" ∷ "a" ∷ []))
      (λ _. Pushed memory-IsLawful start.names defaults (inl refl) "a")
      (Named memory-IsLawful start.names)
unfolding shape
program-push_example = program-push host memory-IsLawful start.names (λ w. refl) "a" refl
