-- ===== src/Examples/Succeeding.antt =====
-- `img tag` and `img rm` succeed, in the host in memory.
use img.Common.{false, some, [], ◌∷◌, ◌≡◌, refl, inl}
use img.Common.Exec.{ok}
use img.Common.FilePath
use img.Services.Laws.{put_tag}
use img.Services.Up.{IsUp}
use img.Client.{State}
use img.Command.{Globals}
use img.Fixture.{World, memory, meta_file}
use img.Fixture.Data.{running, start, layer}
use img.Fixture.Lawful.{memory-IsLawful}
use img.Main.Commands.{program}
use img.Main.Succeeding.{program-tag-ok, program-tag-remove}
use img.Main.Words.{global_words}
use img.Examples.Commands.{host}

abbrev native : Globals
native = record { backend = "native"; state_dir = "/tmp/img"; debug = false }

memory-IsUp : IsUp memory "/tmp/img/runc/native"
unfolding FilePath.join
memory-IsUp = record {
  getenv = λ v w. (_, refl);
  new_id = λ w. (_, refl);
  mkdir = λ p m w. (_, refl);
  manager = λ w. (_, refl);
  metadata = λ p w. (_, refl);
  euid = λ w. (_, refl);
  native = λ p w. (_, refl);
  overlay = λ p w. (_, refl);
  runc = λ p b w. (_, refl);
  local = λ p w. (_, refl);
  bolt = λ m w. (_, refl);
  init = λ h w. (_, refl);
  worker_id = λ p w. (_, refl);
}

program-tag-ok_example :
    ((program host ("tag" ∷ global_words native ("--" ∷ "a" ∷ "b" ∷ [])) running).0 ≡ ok tt)
    × (memory-IsLawful.tags
          (program host ("tag" ∷ global_words native ("--" ∷ "a" ∷ "b" ∷ [])) running).1.host
        ≡ put_tag start.names meta_file "buildkit" "b" (some layer))
unfolding FilePath.join
program-tag-ok_example =
    program-tag-ok host memory-IsLawful (λ w. refl) native (inl refl) memory-IsUp "a" "b" "a" "b"
      layer running (_, refl, refl) (_, refl, refl) refl

-- The next process, on the host that the first left.
abbrev tagged : State World
tagged = record running {
  host = (program host ("tag" ∷ global_words native ("--" ∷ "a" ∷ "b" ∷ [])) running).1.host;
}

program-tag-remove_example :
    ((program host ("tag" ∷ global_words native ("--" ∷ "a" ∷ "b" ∷ [])) running).0 ≡ ok tt)
    × ((program host ("rm" ∷ global_words native ("--" ∷ "b" ∷ [])) tagged).0 ≡ ok tt)
    × (memory-IsLawful.tags
          (program host ("rm" ∷ global_words native ("--" ∷ "b" ∷ [])) tagged).1.host
        ≡ start.names)
unfolding FilePath.join
program-tag-remove_example =
    program-tag-remove host memory-IsLawful (λ w. refl) native (inl refl) memory-IsUp "a" "b" "a"
      "b" layer running tagged (_, refl, refl) (_, refl, refl) refl refl refl
