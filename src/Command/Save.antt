-- ===== src/Command/Save.antt =====
-- save.go
pub mod Writer
pub mod Exports
pub mod Names
use img.Common.{String, Bool, false, true, List, [], ◌∷◌, ◌==◌, if◌then◌else◌}
use img.Common.Exec.{Exec, errorf, pure, raise, ◌>>=◌, ◌>>◌}
use img.Services.{Services, Handle, Context}
use img.Client.{State, call, set_client, new}
use img.Client.Images.{save_image}
use img.Flag.{Spec, takes_value}
use img.Command.{Description, Globals, buildkit_context}

abbrev pub save_description : Description
save_description = record {
  name = "save";
  args = "[OPTIONS] IMAGE [IMAGE...]";
  short_help = "Save an image to a tar archive (streamed to STDOUT by default).";
  long_help = "Save an image to a tar archive (streamed to STDOUT by default).";
  hidden = false;
  do_reexec = true;
  requires_runc = false;
}

-- `Register`
abbrev pub save_flags : List Spec
save_flags =
    record {
      name = "o";
      usage = "Write to a file, instead of STDOUT";
      default = "";
      kind = takes_value;
    }
    ∷ []

module _ {W : Type 0} (S : Services W) where
  -- What `writer` does where no output file is named.
  unfoldable pub stdout_writer : Bool → Exec (State W) Handle
  stdout_writer true =
      raise (errorf "cowardly refusing to save to a terminal. Use the -o flag or redirect" [])
  stdout_writer false = pure S.files.stdout

  unfoldable pub writer : String → Exec (State W) Handle
  unfolding stdout_writer
  writer output =
      if output == ""
      then (do is_terminal ← call S.files.stdout_is_terminal; stdout_writer is_terminal)
      else call (S.files.create output)

  -- The loop over the arguments, all to one writer.
  unfoldable pub save_images : Context → Handle → List String → Exec (State W) (Unit {0})
  save_images ctx w [] = pure tt
  save_images ctx w (image ∷ images) = do save_image S ctx image w; save_images ctx w images

  -- `Run`, at the value of the flag `-o`.
  unfoldable pub run_save : Globals → String → List String → Exec (State W) (Unit {0})
  unfolding save_images writer new
  run_save g output [] = raise (errorf "must pass an image to save" [])
  run_save g output (image ∷ images) = do
    id ← call S.sessions.new_id
    c ← new S g.state_dir g.backend []
    set_client c
    w ← writer output
    save_images (buildkit_context id) w (image ∷ images)
