-- ===== src/Main/Tagging.antt =====
-- The whole program, called as `img tag SOURCE TARGET`.
use img.Common.{String, [], ◌∷◌, ◌≡◌, refl, inl}
use img.Common.Exec.{ok}
use img.Common.Triple.{Triple, Triple-bind, Triple-given, Triple-modify}
use img.Services.Laws.{Tags, IsLawful}
use img.Client.{print}
use img.Command.Tag.Names.{Named, Retagged, run_tag-Triple}
use img.Flag
use img.Main.{main, set_level}
use img.Main.Commands.{Setup, watch, commands, tag_command, program}
use img.Main.Whole.{defaults, run_parsed-Triple, parse_flags-given}

module _ {W : Type 0} (H : Setup W) (L : IsLawful H.services) (t : Tags)
    (child : (w : W) → (H.services.processes.getenv "IMG_DO_UNSHARE" w).0 ≡ ok "1")
    (src dest : String) (plain_src : Flag.shape src ≡ Flag.plain) where
  -- Over lawful services, in the process that the program started in its namespace, and where the
  -- source is no flag: if `img tag` returns, both names parse, the source referred to something in
  -- the metadata file of the native or the overlayfs backend below /tmp/img, the target's name
  -- there now refers to the same, and no other name of any file or namespace changed; if it ends in
  -- any other way, no name changed.
  pub program-tag :
      Triple
        (Named L t)
        (program H ("tag" ∷ src ∷ dest ∷ []))
        (λ _. Retagged L t defaults (inl refl) src dest)
        (Named L t)
  unfolding program main print set_level
  program-tag =
      Triple-bind
        (parse_flags-given L t child (watch H) (commands H) (tag_command H) src (dest ∷ [])
          plain_src)
        λ p. Triple-given λ e. rw e (
          Triple-bind (Triple-modify {Q = Named L t} _ (λ s h. h)) λ _.
            run_parsed-Triple L t child (watch H) (commands H) (tag_command H) _ _ refl refl
              (run_tag-Triple L t defaults (inl refl) src dest []) (λ s h. h)
              (λ line. Triple-modify _ (λ s h. h)))
