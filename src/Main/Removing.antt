-- ===== src/Main/Removing.antt =====
-- The whole program, called as `img rm IMAGE...`.
use img.Common.{String, List, ◌∷◌, ◌≡◌, inl, refl}
use img.Common.Exec.{ok}
use img.Common.Triple.{Triple, Triple-bind, Triple-given, Triple-modify, Triple-relax}
use img.Services.Laws.{Tags, IsLawful}
use img.Client.{print}
use img.Command.Remove.Names.{Emptied, PartlyEmptied, untouched, run_remove-Triple}
use img.Command.Tag.Names.{Named}
use img.Flag
use img.Main.{main, set_level}
use img.Main.Commands.{Setup, watch, commands, remove_command, program}
use img.Main.Whole.{defaults, run_parsed-Triple, parse_flags-given}

module _ {W : Type 0} (H : Setup W) (L : IsLawful H.services) (t : Tags)
    (child : (w : W) → (H.services.processes.getenv "IMG_DO_UNSHARE" w).0 ≡ ok "1") (image : String)
    (images : List String) (plain_image : Flag.shape image ≡ Flag.plain) where
  -- Over lawful services, in the process that the program started in its namespace, and where the
  -- first image is no flag: if `img rm` returns, the names in the metadata file of the native or the
  -- overlayfs backend below /tmp/img are what they were without those of the images, each of which
  -- was present when its turn came, and no other name of any file or namespace changed; if it ends in
  -- any other way, this holds of some of the first images.
  pub program-remove :
      Triple
        (Named L t)
        (program H ("rm" ∷ image ∷ images))
        (λ _. Emptied L t defaults (inl refl) (image ∷ images))
        (PartlyEmptied L t defaults (inl refl) (image ∷ images))
  unfolding program main print set_level
  program-remove =
      Triple-bind
        (Triple-relax (untouched L t defaults (inl refl) (image ∷ images)) (
          parse_flags-given L t child (watch H) (commands H) (remove_command H) image images
            plain_image))
        λ p. Triple-given λ e. rw e (
          Triple-bind (Triple-modify {Q = Named L t} _ (λ s h. h)) λ _.
            run_parsed-Triple L t child (watch H) (commands H) (remove_command H) _ _ refl refl
              (run_remove-Triple L t defaults (inl refl) image images)
              (untouched L t defaults (inl refl) (image ∷ images))
              (λ line. Triple-modify _ (λ s h. h)))
