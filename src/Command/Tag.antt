-- ===== src/Command/Tag.antt =====
-- tag.go
pub mod Names
pub mod Total
use img.Common.{String, false, true, List, [], ◌∷◌}
use img.Common.Exec.{Exec, errorf, raise, ◌>>=◌, ◌>>◌}
use img.Common.Output.{text, stdout}
use img.Services.{Services}
use img.Client.{State, call, print, set_client, new}
use img.Client.Images.{tag_image}
use img.Flag.{Spec}
use img.Command.{Description, Globals, buildkit_context}

abbrev pub tag_description : Description
tag_description = record {
  name = "tag";
  args = "SOURCE_IMAGE[:TAG] TARGET_IMAGE[:TAG]";
  short_help = "Create a tag TARGET_IMAGE that refers to SOURCE_IMAGE.";
  long_help = "Create a tag TARGET_IMAGE that refers to SOURCE_IMAGE.";
  hidden = false;
  do_reexec = true;
  requires_runc = false;
}

-- `Register`
abbrev pub tag_flags : List Spec
tag_flags = []

module _ {W : Type 0} (S : Services W) (g : Globals) where
  -- `Run`
  unfoldable pub run_tag : List String → Exec (State W) (Unit {0})
  unfolding new
  run_tag (image ∷ target ∷ _) = do
    id ← call S.sessions.new_id
    c ← new S g.state_dir g.backend []
    set_client c
    tag_image S (buildkit_context id) image target
    print (stdout "Successfully tagged %s as %s\n" (text image ∷ text target ∷ []))
  run_tag _ = raise (errorf "must pass an image or repository and target to tag" [])
