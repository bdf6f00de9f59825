-- ===== src/Main/Pulling.antt =====
-- The whole program, called as `img pull IMAGE`.
use img.Common.{String, [], ◌∷◌, ◌≡◌, inl, refl}
use img.Common.Exec.{ok}
use img.Common.Triple.{Triple, Triple-bind, Triple-given, Triple-modify, Triple-relax}
use img.Services.Laws.{Tags, IsLawful}
use img.Client.{print}
use img.Command.Pull.Names.{Fetched, MaybeFetched, run_pull-Triple}
use img.Command.Tag.Names.{Named}
use img.Flag
use img.Main.{main, set_level}
use img.Main.Commands.{Setup, watch, commands, pull_command, program}
use img.Main.Whole.{defaults, run_parsed-Triple, parse_flags-given}

module _ {W : Type 0} (H : Setup W) (L : IsLawful H.services) (t : Tags)
    (child : (w : W) → (H.services.processes.getenv "IMG_DO_UNSHARE" w).0 ≡ ok "1") (image : String)
    (plain_image : Flag.shape image ≡ Flag.plain) where
  -- Over lawful services, in the process that the program started in its namespace, and where the
  -- image is no flag, whichever goroutine returns first: if `img pull` returns, the image's name
  -- parses, its full name in the metadata file of the native or the overlayfs backend below /tmp/img
  -- refers to something, and no other name of any file or namespace changed; if it ends in any other
  -- way, either no name changed or that one change was made.
  pub program-pull :
      Triple
        (Named L t)
        (program H ("pull" ∷ image ∷ []))
        (λ _. Fetched L t defaults (inl refl) image)
        (MaybeFetched L t defaults (inl refl) image)
  unfolding program main print set_level
  program-pull =
      Triple-bind
        (Triple-relax (λ s. inl)
          (parse_flags-given L t child (watch H) (commands H) (pull_command H) image []
            plain_image))
        λ p. Triple-given λ e. rw e (
          Triple-bind (Triple-modify {Q = Named L t} _ (λ s h. h)) λ _.
            run_parsed-Triple L t child (watch H) (commands H) (pull_command H) _ _ refl refl
              (run_pull-Triple L t defaults (inl refl) H.turn image []) (λ s. inl)
              (λ line. Triple-modify _ (λ s h. h)))
