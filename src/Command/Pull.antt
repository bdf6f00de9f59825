-- ===== src/Command/Pull.antt =====
-- pull.go
pub mod Names
use img.Common.{String, false, true, none, List, [], ◌∷◌}
use img.Common.Exec.{Exec, errorf, raise, ◌>>=◌, ◌>>◌}
use img.Common.Group.{Schedule, wait_both}
use img.Common.Output.{text, size, stdout}
use img.Services.{Services}
use img.Client.{State, call, lift, print, set_client, new, session}
use img.Client.Images
use img.Flag.{Spec}
use img.Command.{Description, Globals, buildkit_context}

abbrev pub pull_description : Description
pull_description = record {
  name = "pull";
  args = "[OPTIONS] NAME[:TAG|@DIGEST]";
  short_help = "Pull an image or a repository from a registry.";
  long_help = "Pull an image or a repository from a registry.";
  hidden = false;
  do_reexec = true;
  requires_runc = false;
}

-- `Register`
abbrev pub pull_flags : List Spec
pull_flags = []

module _ {W : Type 0} (S : Services W) (turn : Schedule) where
  -- `Run`. The pulled image is what the second goroutine has written when `Wait` returns nil.
  unfoldable pub run_pull : Globals → List String → Exec (State W) (Unit {0})
  unfolding wait_both session new
  run_pull g [] = raise (errorf "must pass an image or repository to pull" [])
  run_pull g (image ∷ _) = do
    c ← new S g.state_dir g.backend []
    set_client c
    print (stdout "Pulling %s...\n" (text image ∷ []))
    (sess, dialer) ← session S (record { namespace = none; session = none })
    let ctx = buildkit_context (S.sessions.id sess)
    (pulled, waited) ←
        wait_both turn (call (S.sessions.run sess ctx dialer)) (call (S.sessions.close sess))
          (Images.pull S ctx image)
    lift waited
    listed ← lift pulled
    print (stdout "Pulled: %s\n" (text listed.image.target.digest ∷ []))
    print (stdout "Size: %s\n" (size listed.content_size ∷ []))
