-- ===== src/Main/Pushing.antt =====
-- The whole program, called as `img push IMAGE`.
use img.Common.{String, [], ◌∷◌, ◌≡◌, inl, refl}
use img.Common.Exec.{ok}
use img.Common.Triple.{Triple, Triple-bind, Triple-given, Triple-modify}
use img.Services.Laws.{Tags, IsLawful}
use img.Client.{print}
use img.Command.Push.Names.{Pushed, run_push-Triple}
use img.Command.Tag.Names.{Named}
use img.Flag
use img.Main.{main, set_level}
use img.Main.Commands.{Setup, watch, commands, push_command, program}
use img.Main.Whole.{defaults, run_parsed-Triple, parse_flags-given}

module _ {W : Type 0} (H : Setup W) (L : IsLawful H.services) (t : Tags)
    (child : (w : W) → (H.services.processes.getenv "IMG_DO_UNSHARE" w).0 ≡ ok "1") (image : String)
    (plain_image : Flag.shape image ≡ Flag.plain) where
  -- Over lawful services, in the process that the program started in its namespace, and where the
  -- image is no flag, whichever goroutine returns first: `img push` changes no name of any file or
  -- namespace, and if it returns, the image's name parses and is present in the metadata file of the
  -- native or the overlayfs backend below /tmp/img.
  pub program-push :
      Triple
        (Named L t)
        (program H ("push" ∷ image ∷ []))
        (λ _. Pushed L t defaults (inl refl) image)
        (Named L t)
  unfolding program main print set_level
  program-push =
      Triple-bind
        (parse_flags-given L t child (watch H) (commands H) (push_command H) image [] plain_image)
        λ p. Triple-given λ e. rw e (
          Triple-bind (Triple-modify {Q = Named L t} _ (λ s h. h)) λ _.
            run_parsed-Triple L t child (watch H) (commands H) (push_command H) _ _ refl refl
              (run_push-Triple L t defaults (inl refl) H.turn _ image []) (λ s h. h)
              (λ line. Triple-modify _ (λ s h. h)))
