-- ===== src/Main/Building.antt =====
-- The whole program, called as `img build`.
use img.Common.{String, true, false, List, ◌∷◌, ◌≡◌, ◌==◌, refl, ap, ◌∙◌, inl, inr}
use img.Common.Exec.{ok, ◌>>=◌}
use img.Common.Triple.{Triple, Triple-bind, Triple-given, Triple-modify, Triple-relax}
use img.Services.Laws.{Tags, IsLawful}
use img.Services.Scratch.{IsScratch}
use img.Services.Solving.Laws.{IsSolving}
use img.Backend.{valid_backends}
use img.Build.{BuildCommand}
use img.Build.Names.{NamedBy, MaybeNamedBy, run_build_image-Triple}
use img.Client.{print, lift}
use img.Client.Backends.{IsValid}
use img.Client.Sessions.{IsSeen}
use img.Command.{Globals}
use img.Command.Tag.Names.{Named}
use img.Main.{main, set_level, contains}
use img.Main.CommandLine.{
  command_line, parsed_line, parse-command_line, globals-parsed_line, build_fields-parsed_line,
}
use img.Main.Commands.{Setup, watch, commands, build_command, program}
use img.Main.Interface.{globals, parse_flags, parsed_or_exit}
use img.Main.Runc.{run_parsed-Runc}

pub valid_contained : (b : String) → IsValid b → contains valid_backends b ≡ true
unfolding contains
valid_contained b (inl e) = rw e refl
valid_contained b (inr (inl e)) = rw e refl
valid_contained b (inr (inr e)) = rw e refl

module _ {W : Type 0} (H : Setup W) {L : IsLawful H.services} (K : IsSolving L H.solving)
    (M : IsScratch L) (t : Tags)
    (child : (w : W) → (H.services.processes.getenv "IMG_DO_UNSHARE" w).0 ≡ ok "1") (g : Globals)
    (valid : IsValid g.backend) (cmd : BuildCommand) (dir : String) (more : List String)
    (file : (cmd.dockerfile_path == "-") ≡ false) (path : (dir == "-") ≡ false) where
  parse_flags-line :
      Triple
        (Named L t)
        (parse_flags (build_command H) (command_line g cmd (dir ∷ more)))
        (λ p s. Named L t s × (p ≡ parsed_line g cmd (dir ∷ more)))
        (Named L t)
  unfolding parse_flags parsed_or_exit lift ◌>>=◌
  parse_flags-line = rw (parse-command_line g cmd (dir ∷ more) H) (record { at = λ s h. (h, refl) })

  NamedBy-seen : IsSeen L (NamedBy K t H.turn H.inner H.fuel g valid cmd.tag)
  NamedBy-seen s s' e c (k, name, (b, d, resolved, tags)) = (k, name, (b, d, resolved, e ∙ tags))

  MaybeNamedBy-seen : IsSeen L (MaybeNamedBy K t H.turn H.inner H.fuel g valid cmd.tag)
  MaybeNamedBy-seen s s' e c (inl h) = inl (e ∙ h)
  MaybeNamedBy-seen s s' e c (inr h) = inr (NamedBy-seen s s' e c h)

  run-line :
      Triple
        (Named L t)
        ((build_command H).run
          (globals (parsed_line g cmd (dir ∷ more)).settings)
          (parsed_line g cmd (dir ∷ more)).settings
          (dir ∷ more))
        (λ _. NamedBy K t H.turn H.inner H.fuel g valid cmd.tag)
        (MaybeNamedBy K t H.turn H.inner H.fuel g valid cmd.tag)
  run-line =
      rw (globals-parsed_line g cmd (dir ∷ more), build_fields-parsed_line g cmd (dir ∷ more))
        (run_build_image-Triple K t H.turn H.inner H.fuel g valid cmd dir more file path)

  -- Over lawful services, in the process that the program started in its namespace, for all global
  -- flags with a valid backend and all fields of the command, where neither the Dockerfile nor the
  -- context is the standard input, whichever goroutines return first and whether runc has to be
  -- installed or not: if `img build` returns, the name of `-t` parses, its full name in the metadata
  -- file of the native or the overlayfs backend below the state directory refers to something, and no
  -- other name of any file or namespace changed; if it ends in any other way, either no name changed
  -- or that one change was made.
  pub program-build :
      Triple
        (Named L t)
        (program H ("build" ∷ command_line g cmd (dir ∷ more)))
        (λ _. NamedBy K t H.turn H.inner H.fuel g valid cmd.tag)
        (MaybeNamedBy K t H.turn H.inner H.fuel g valid cmd.tag)
  unfolding program main print set_level
  program-build = Triple-bind (Triple-relax (λ s. inl) parse_flags-line) λ p. Triple-given λ e.
      rw e (
        Triple-bind (Triple-modify {Q = Named L t} _ (λ s h. h)) λ _.
          run_parsed-Runc M t (watch H) (commands H) (build_command H) NamedBy-seen
            MaybeNamedBy-seen (λ s. inl) (λ line. Triple-modify _ (λ s h. h)) _ _ refl refl
            (ap (λ (u : Globals). contains valid_backends u.backend)
                (globals-parsed_line g cmd (dir ∷ more))
              ∙ valid_contained g.backend valid)
            child run-line)
