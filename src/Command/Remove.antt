-- ===== src/Command/Remove.antt =====
-- remove.go
pub mod Sequence
pub mod Names
pub mod Total
use img.Common.{String, false, true, List, [], ◌∷◌}
use img.Common.Exec.{Exec, errorf, pure, raise, ◌>>=◌, ◌>>◌}
use img.Common.Output.{text, stdout}
use img.Services.{Services, Context}
use img.Client.{State, call, print, set_client, new}
use img.Client.Images.{remove_image}
use img.Flag.{Spec}
use img.Command.{Description, Globals, buildkit_context}

abbrev pub remove_description : Description
remove_description = record {
  name = "rm";
  args = "[OPTIONS] IMAGE [IMAGE...]";
  short_help = "Remove one or more images.";
  long_help = "Remove one or more images.";
  hidden = false;
  do_reexec = true;
  requires_runc = false;
}

-- `Register`
abbrev pub remove_flags : List Spec
remove_flags = []

module _ {W : Type 0} (S : Services W) where
  -- The loop over the arguments.
  unfoldable pub remove_images : Context → List String → Exec (State W) (Unit {0})
  remove_images ctx [] = pure tt
  remove_images ctx (image ∷ images) = do
    print (stdout "Removing %s...\n" (text image ∷ []))
    remove_image S ctx image
    print (stdout "Successfully removed %s\n" (text image ∷ []))
    remove_images ctx images

  -- `Run`
  unfoldable pub run_remove : Globals → List String → Exec (State W) (Unit {0})
  unfolding remove_images new
  run_remove g [] = raise (errorf "must pass an image to remove" [])
  run_remove g (image ∷ images) = do
    id ← call S.sessions.new_id
    c ← new S g.state_dir g.backend []
    set_client c
    remove_images (buildkit_context id) (image ∷ images)
