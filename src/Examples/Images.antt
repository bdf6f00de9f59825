-- ===== src/Examples/Images.antt =====
-- The theorems on the image store and on `img save`, applied.
use img.Common.{String, Bool, true, false, Option, none, some, [], ◌∷◌, ◌≡◌, ◌≢◌, refl, arith}
use img.Common.Exec.{ok}
use img.Common.Triple.{Triple}
use img.Services.{Handle}
use img.Client.Images.{remove_image}
use img.Client.Images.Tagging.{Removed, remove_image-Triple}
use img.Client.Worker.Keeps.{Pieces}
use img.Client.Worker.Opens.{View}
use img.Command.{buildkit_context}
use img.Command.Save.{run_save}
use img.Command.Save.Writer.{Writers, run_save-two}
use img.Command.Save.Exports.{Export}
use img.Fixture.{World, memory, meta_file, exported, in_space, got}
use img.Fixture.Data.{start, running, usual}
use img.Fixture.Lawful.{memory-IsLawful}

remove_image-Triple_example :
    Triple
      (View memory-IsLawful start.names "/tmp/img/runc/native")
      (remove_image memory (buildkit_context "id") "a")
      (λ _.
        Removed memory-IsLawful start.names "/tmp/img/runc/native"
          (buildkit_context "id")
          "buildkit"
          refl
          "a")
      (View memory-IsLawful start.names "/tmp/img/runc/native")
remove_image-Triple_example =
    remove_image-Triple memory-IsLawful start.names "/tmp/img/runc/native" (buildkit_context "id")
      "buildkit" refl "a"

closes : (h : Handle) (w : World) → (memory.files.close h w).1.closed h ≡ true
closes h w = ground arith

refuses : (b : Bool) (x : Export) (w : World) → b ≡ true → (exported b x w).0 ≢ ok tt
refuses true x w h e = cc
refuses false x w h e = cc

got_keeps :
    (h : Handle) (space : Option String) (k : String) (w : World)
    → w.closed h ≡ true
    → (in_space space (λ n u. (got k (u.names meta_file n k), u)) w).1.closed h ≡ true
got_keeps h none k w c = c
got_keeps h (some n) k w c = c

abbrev closed_pieces : (h : Handle) → Pieces memory (λ w. w.closed h ≡ true)
closed_pieces h = record {
  manager = λ w c. c;
  metadata = λ p w c. c;
  euid = λ w c. c;
  native = λ p w c. c;
  overlay = λ p w c. c;
  runc = λ p b w c. c;
  local = λ p w c. c;
  bolt = λ p m b w c. c;
  init = λ h w c. c;
  id = λ p w c. c;
}

abbrev memory_writers : Writers memory
memory_writers = record {
  IsClosed = λ h w. w.closed h ≡ true;
  closes = λ h w e. closes h w;
  stays = closed_pieces;
  stays_get = λ h store ctx k w c. got_keeps h ctx.namespace k w c;
  refuses = λ ctx k content d h w c. refuses (w.closed h) _ w c;
}

run_save-two_example : (run_save memory usual "out.tar" ("a" ∷ "a" ∷ []) running).0 ≢ ok tt
run_save-two_example = run_save-two memory_writers usual "out.tar" "a" "a" [] running
