-- ===== src/Examples/Changes.antt =====
-- The theorems on `Pull` and on the loop of `img rm`, applied.
use img.Common.{[], ◌∷◌, ◌≡◌, refl}
use img.Common.Exec.{ok, ◌>>=◌}
use img.Common.FilePath
use img.Common.Triple.{Triple}
use img.Client.{call, lift, print}
use img.Client.Images.{pull, remove_image}
use img.Client.Worker.{create_worker_opt}
use img.Client.Images.Pulling.{Pulled, Untouched, pull-Triple}
use img.Client.Worker.Opens.{View}
use img.Command.{buildkit_context}
use img.Command.Remove.{remove_images}
use img.Command.Remove.Sequence.{AllCleared, SomeCleared, remove_images-Triple}
use img.Fixture.{memory}
use img.Fixture.Data.{start, running}
use img.Fixture.Lawful.{memory-IsLawful}

pull-Triple_example :
    Triple
      (View memory-IsLawful start.names "/tmp/img/runc/native")
      (pull memory (buildkit_context "id") "c")
      (λ i s.
        Pulled memory-IsLawful start.names "/tmp/img/runc/native"
          (buildkit_context "id")
          "buildkit"
          refl
          "c"
          i.image.name
          i.image.target
          s)
      (Untouched memory-IsLawful start.names "/tmp/img/runc/native"
        (buildkit_context "id")
        "buildkit"
        refl
        "c")
pull-Triple_example =
    pull-Triple memory-IsLawful start.names "/tmp/img/runc/native" (buildkit_context "id")
      "buildkit" refl "c"

-- The loop removes the one image that is there.
removes : (remove_images memory (buildkit_context "id") ("a" ∷ []) running).0 ≡ ok tt
unfolding remove_images remove_image create_worker_opt FilePath.join call lift print ◌>>=◌
removes = refl

remove_images-Triple_example :
    Triple
      (View memory-IsLawful start.names "/tmp/img/runc/native")
      (remove_images memory (buildkit_context "id") ("a" ∷ "b" ∷ []))
      (λ _.
        AllCleared memory-IsLawful "/tmp/img/runc/native"
          (buildkit_context "id")
          "buildkit"
          refl
          ("a" ∷ "b" ∷ [])
          start.names)
      (SomeCleared memory-IsLawful "/tmp/img/runc/native"
        (buildkit_context "id")
        "buildkit"
        refl
        ("a" ∷ "b" ∷ [])
        start.names)
remove_images-Triple_example =
    remove_images-Triple memory-IsLawful "/tmp/img/runc/native" (buildkit_context "id") "buildkit"
      refl ("a" ∷ "b" ∷ []) start.names
