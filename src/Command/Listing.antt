-- ===== src/Command/Listing.antt =====
-- list.go
pub mod Table
use img.Common.{String, false, true, List, [], ◌∷◌}
use img.Common.Exec.{Exec, pure, ◌>>=◌, ◌>>◌}
use img.Common.Output.{text, size, age, stdout}
use img.Services.{Services}
use img.Client.{State, call, print, set_client, new}
use img.Client.Images.{ListedImage}
use img.Client.Images.Listing.{list_images}
use img.Flag.{Spec, takes_value}
use img.Flag.Slice.{show}
use img.Command.{Description, Globals, buildkit_context}

abbrev pub list_description : Description
list_description = record {
  name = "ls";
  args = "[OPTIONS]";
  short_help = "List images and digests.";
  long_help = "List images and digests.";
  hidden = false;
  do_reexec = true;
  requires_runc = false;
}

-- `Register`
unfoldable pub list_flags : List Spec
unfolding show
list_flags =
    record {
      name = "f";
      usage = "Filter output based on conditions provided";
      default = show [];
      kind = takes_value;
    }
    ∷ []

module _ {W : Type 0} (S : Services W) where
  -- The loop over the images: the clock is read for each of the two ages.
  unfoldable pub print_images : List ListedImage → Exec (State W) (Unit {0})
  print_images [] = pure tt
  print_images (l ∷ ls) = do
    now ← call S.files.now
    now' ← call S.files.now
    print (
        stdout "%s\t%s\t%s\t%s\t%s\n" (
          text l.image.name
          ∷ size l.content_size
          ∷ age now l.image.created_at
          ∷ age now' l.image.updated_at
          ∷ text l.image.target.digest
          ∷ []))
    print_images ls

  -- `Run`, at the values of the flag `-f`. The arguments are not read.
  unfoldable pub run_list : Globals → List String → Exec (State W) (Unit {0})
  unfolding print_images new
  run_list g filters = do
    id ← call S.sessions.new_id
    c ← new S g.state_dir g.backend []
    set_client c
    images ← list_images S (buildkit_context id) filters
    print (stdout "NAME\tSIZE\tCREATED AT\tUPDATED AT\tDIGEST\n" [])
    print_images images
