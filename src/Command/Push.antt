-- ===== src/Command/Push.antt =====
-- push.go
pub mod Names
use img.Common.{String, Bool, false, true, none, List, [], ◌∷◌}
use img.Common.Exec.{Exec, errorf, raise, ◌>>=◌, ◌>>◌}
use img.Common.Group.{Schedule, wait_both}
use img.Common.Output.{text, stdout}
use img.Services.{Services}
use img.Client.{State, call, lift, print, set_client, new, session}
use img.Client.Images
use img.Flag.{Spec, switch}
use img.Command.{Description, Globals, buildkit_context}

abbrev pub push_description : Description
push_description = record {
  name = "push";
  args = "[OPTIONS] NAME[:TAG]";
  short_help = "Push an image or a repository to a registry.";
  long_help = "Push an image or a repository to a registry.";
  hidden = false;
  do_reexec = true;
  requires_runc = false;
}

-- `Register`
abbrev pub push_flags : List Spec
push_flags =
    record {
      name = "insecure-registry";
      usage = "Push to insecure registry";
      default = "false";
      kind = switch;
    }
    ∷ []

module _ {W : Type 0} (S : Services W) (turn : Schedule) where
  -- `Run`, at the value of the flag `-insecure-registry`. The session is made in an empty context.
  unfoldable pub run_push : Globals → Bool → List String → Exec (State W) (Unit {0})
  unfolding wait_both session new
  run_push g insecure [] = raise (errorf "must pass an image or repository to push" [])
  run_push g insecure (image ∷ _) = do
    c ← new S g.state_dir g.backend []
    set_client c
    print (stdout "Pushing %s...\n" (text image ∷ []))
    (sess, dialer) ← session S (record { namespace = none; session = none })
    let ctx = buildkit_context (S.sessions.id sess)
    (_, waited) ←
        wait_both turn (call (S.sessions.run sess ctx dialer)) (call (S.sessions.close sess))
          (Images.push S ctx image insecure)
    lift waited
    print (stdout "Successfully pushed %s\n" (text image ∷ []))
