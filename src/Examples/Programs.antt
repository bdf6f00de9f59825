-- ===== src/Examples/Programs.antt =====
-- The theorems on the client, the re-execution and `main`, applied.
use img.Common.{false, some, List, [], ◌∷◌, ◌≡◌, refl, inl}
use img.Common.Exec.{Error, ok, err, halt, pure, ◌>>=◌}
use img.Common.Triple.{Triple}
use img.Binutils.{install_runc_binary}
use img.Build.{build_description}
use img.Client.{State, call, new, get_session_manager}
use img.Client.Backends.{IsFresh, new-Triple, get_session_manager-once}
use img.Main.Interface.{Command}
use img.Main.{run_with_runc}
use img.Main.Dispatch.{run_with_runc-directory}
use img.Fixture.{World, memory}
use img.Fixture.Data.{calm, usual, running}

new-Triple_example :
    Triple
      (λ _. Unit)
      (new memory "/tmp/img" "auto" [])
      (λ c _. IsFresh memory "/tmp/img" c)
      (λ _. Unit)
new-Triple_example = new-Triple memory "/tmp/img" "auto" [] (inl refl)

abbrev managed : State World
managed = record running { client = record running.client { session_manager = some 4 } }

manages : get_session_manager memory running ≡ (ok 4, managed)
unfolding get_session_manager call ◌>>=◌
manages = refl

get_session_manager-once_example : get_session_manager memory managed ≡ (ok 4, managed)
get_session_manager-once_example = get_session_manager-once memory running managed 4 manages

-- A command that always succeeds.
abbrev idle_command : Command World
idle_command = record {
  description = build_description;
  register = [];
  run = λ g settings args. pure tt;
}

abbrev idle_commands : List (Command World)
idle_commands = idle_command ∷ []

installs : install_runc_binary memory running ≡ (ok ("/tmp/dir", ok tt), running)
unfolding install_runc_binary call ◌>>=◌
installs = refl

run_with_runc-directory_example :
    ((idle_command.run usual [] [] running).0 ≡ ok tt
      → ((run_with_runc memory calm idle_commands idle_command usual [] [] false running).0 ≡ ok tt)
        × ((run_with_runc memory calm idle_commands idle_command usual [] [] false running).1.host
            ≡ (memory.files.remove_all "/tmp/dir" (idle_command.run usual [] [] running).1.host).1))
    × ((e : Error)
        → (idle_command.run usual [] [] running).0 ≡ err e
        → ((run_with_runc memory calm idle_commands idle_command usual [] [] false running).0
            ≡ halt 1)
          × ((run_with_runc memory calm idle_commands idle_command usual [] [] false running).1.host
              ≡ (idle_command.run usual [] [] running).1.host))
run_with_runc-directory_example =
    run_with_runc-directory memory calm idle_commands idle_command usual [] [] running running
      "/tmp/dir" installs
