-- ===== src/Examples/Building.antt =====
-- `img build` as the whole program, with a solver in memory that exports the image.
use img.Common.{String, List, false, true, Option, none, some, [], ◌∷◌, ◌≡◌, refl, inl, inr}
use img.Common.Exec.{Outcome, ok, err, errorf, ◌>>=◌}
use img.Common.Int.{pos}
use img.Common.Group.{body_first}
use img.Common.Triple.{Triple}
use img.Services.{Descriptor}
use img.Services.Scratch.{IsScratch}
use img.Services.Progress.{StatusResponse}
use img.Services.Solving.{Solving}
use img.Services.Solving.Laws.{IsSolving}
use img.Build.{BuildCommand, lookup}
use img.Build.Names.{NamedBy, MaybeNamedBy}
use img.Build.Solver.{run_build_image}
use img.Client.{call, lift, print, set_client}
use img.Common.Text.{cut}
use img.Client.Controller.{create_controller}
use img.Client.Solve.{solve}
use img.Common.FilePath
use img.Command.{Globals}
use img.Command.Tag.Names.{Named}
use img.Fixture.{World, memory, give, in_space, put, meta_file}
use img.Fixture.Data.{running, start}
use img.Fixture.Lawful.{memory-IsLawful}
use img.Main.Building.{program-build}
use img.Main.CommandLine.{command_line}
use img.Main.Commands.{Setup, program}
use img.Examples.Commands.{host}

abbrev built : Descriptor
built = record { media_type = "m"; digest = "sha256:7"; size = pos 7 }

-- A request without a name exports nothing.
abbrev export_as : Option String → String → World → Outcome (Unit {0}) × World
export_as none n w = (ok tt, w)
export_as (some k) n w = (ok tt, put w n k (some built))

-- A vertex and a message of it.
abbrev reported : List StatusResponse
reported =
    record {
      vertexes =
          record {
            digest = "d";
            inputs = [];
            name = "RUN make";
            started = none;
            completed = none;
            error = "";
            cached = false;
          }
          ∷ [];
      statuses = [];
      logs = record { vertex = "d"; stream = 1; msg = "ok"; timestamp = 0 } ∷ [];
    }
    ∷ []

abbrev exporting : Solving World
exporting = record {
  solve = λ h ctx req. in_space ctx.namespace (export_as (lookup "name" req.exporter_attrs));
  status = λ h ref. give (reported, ok tt);
  console = λ w. (err (errorf "no console" []), w);
  display = λ c sent. give tt;
}

memory-IsSolving : IsSolving memory-IsLawful exporting
memory-IsSolving = record {
  worker_file = λ h. meta_file;
  controller_file = λ h. meta_file;
  made_worker = λ opt store h w e f. refl;
  added = λ h wc e. cc;
  made_controller = λ o h c w e f. refl;
  exported = λ c ctx n k req w spaced image named e. (built, rw (spaced, named) refl);
  exports_at_most = λ c ctx n k req w spaced image named. inr (built, rw (spaced, named) refl);
  status_quiet = λ c ref w. refl;
  console_quiet = λ w. refl;
  display_quiet = λ c sent w. refl;
  worker_quiet = λ opt w. refl;
  cache_quiet = λ p w. refl;
  controller_quiet = λ o w. refl;
}

memory-IsScratch : IsScratch memory-IsLawful
memory-IsScratch = record {
  temp_quiet = λ prefix w. refl;
  write_quiet = λ prefix dir content mode w e w'. refl;
  remove_quiet = λ prefix dir w e w'. refl;
  remove_nothing = λ w. refl;
  setenv_quiet = λ key value w. refl;
  look_quiet = λ name w. refl;
  version_quiet = λ w. refl;
}

abbrev builder : Setup World
builder = record host { solving = exporting }

abbrev flags : Globals
flags = record { backend = "native"; state_dir = "/tmp/img"; debug = true }

abbrev app : BuildCommand
app = record { build_args = "A=1" ∷ []; dockerfile_path = ""; target = ""; tag = "app" }

program-build_example :
    Triple
      (Named memory-IsLawful start.names)
      (program builder ("build" ∷ command_line flags app ("." ∷ [])))
      (λ _.
        NamedBy memory-IsSolving start.names body_first body_first 9 flags (inr (inl refl)) "app")
      (MaybeNamedBy memory-IsSolving start.names body_first body_first 9 flags
        (inr (inl refl))
        "app")
program-build_example =
    program-build builder memory-IsSolving memory-IsScratch start.names (λ w. refl) flags
      (inr (inl refl)) app "." [] refl refl

-- The command names the image.
run_build_names :
    (run_build_image memory exporting body_first body_first 9 flags app
        ("." ∷ [])
        running).1.host.names
      meta_file "buildkit" "app"
    ≡ some built
unfolding run_build_image call lift set_client create_controller FilePath.join lookup ◌>>=◌ solve
    cut print
run_build_names = refl
