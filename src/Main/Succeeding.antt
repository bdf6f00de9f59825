-- ===== src/Main/Succeeding.antt =====
-- The whole program, where `img tag` and `img rm` succeed, and one after the other.
use mathlib.Core.Path.{fun_ext}
use img.Common.{String, none, some, [], ◌∷◌, ◌≡◌, refl, ◌∙◌, ap, eq_iff, eq_refl, inr, arith}
use img.Common.Exec.{ok}
use img.Common.Triple.{Triple, Triple-modify, returns}
use img.Services.{Descriptor}
use img.Services.Laws.{Tags, put_tag, IsLawful}
use img.Services.Up.{IsUp}
use img.Client.{State, print}
use img.Client.Backends.{IsValid, IsResolved}
use img.Client.Images.Tagging.{Denotes}
use img.Client.Worker.Opens.{metadata_path}
use img.Client.Worker.Up.{Never}
use img.Command.{Globals}
use img.Command.Remove.Total.{run_remove-Total}
use img.Command.Tag.Names.{Named, backend_root}
use img.Command.Tag.Total.{Returns-names, run_tag-Total}
use img.Main.{find, set_level}
use img.Main.Building.{valid_contained}
use img.Main.Commands.{Setup, watch, commands, tag_command, remove_command, program}
use img.Main.Light.{reexec-Light, main-Light}
use img.Main.Words.{global_words, plain_line, parse-plain_line, globals-plain_line}

resolved-IsValid : (b : String) → IsResolved b → IsValid b
resolved-IsValid b h = inr h

-- A name that was put where there was none, and taken away again.
put_tag-put_tag :
    (t : Tags) (f n k : String) (d : Descriptor)
    → t f n k ≡ none
    → put_tag (put_tag t f n k (some d)) f n k none ≡ t
put_tag-put_tag t f n k d absent = fun_ext λ f'. fun_ext λ n'. fun_ext λ k'. at f' n' k'
  where
    at : (f' n' k' : String) → put_tag (put_tag t f n k (some d)) f n k none f' n' k' ≡ t f' n' k'
    at f' n' k' = ground (arith, eq_iff f f', eq_iff n n', eq_iff k k')

module _ {W : Type 0} (H : Setup W) (L : IsLawful H.services)
    (child : (w : W) → (H.services.processes.getenv "IMG_DO_UNSHARE" w).0 ≡ ok "1") (g : Globals)
    (resolved : IsResolved g.backend)
    (U : IsUp H.services (backend_root g.state_dir g.backend)) where
  -- The metadata file of the backend of the flags.
  abbrev pub file : String
  file = metadata_path (backend_root g.state_dir g.backend)

  program-tag-Total :
      (t : Tags) (src dest k k' : String) (d : Descriptor)
      → Denotes H.services src k
      → Denotes H.services dest k'
      → t file "buildkit" k ≡ some d
      → Triple
          (Named L t)
          (program H ("tag" ∷ global_words g ("--" ∷ src ∷ dest ∷ [])))
          (λ _ s. L.tags s.host ≡ put_tag t file "buildkit" k' (some d))
          Never
  unfolding program find set_level print
  program-tag-Total t src dest k k' d from to present =
      main-Light H.services (watch H) (commands H) (tag_command H)
        (λ line. record { at = λ s h. absurd h }) "tag" (global_words g ("--" ∷ src ∷ dest ∷ []))
        (plain_line g (src ∷ dest ∷ [])) g refl refl (parse-plain_line g (src ∷ dest ∷ []))
        (globals-plain_line g (src ∷ dest ∷ [])) refl
        (valid_contained g.backend (resolved-IsValid g.backend resolved))
        (Triple-modify {Q = Named L t} _ (λ s h. h))
        (reexec-Light H.services _ _ (λ v. Returns-names L U t _ (U.getenv v) (L.getenv_quiet v))
          child (watch H) _)
        (run_tag-Total L t g U resolved src dest k k' d from to present [])

  program-remove-Total :
      (t : Tags) (image k : String) (d : Descriptor)
      → Denotes H.services image k
      → t file "buildkit" k ≡ some d
      → Triple
          (Named L t)
          (program H ("rm" ∷ global_words g ("--" ∷ image ∷ [])))
          (λ _ s. L.tags s.host ≡ put_tag t file "buildkit" k none)
          Never
  unfolding program find set_level print
  program-remove-Total t image k d from present =
      main-Light H.services (watch H) (commands H) (remove_command H)
        (λ line. record { at = λ s h. absurd h }) "rm" (global_words g ("--" ∷ image ∷ []))
        (plain_line g (image ∷ [])) g refl refl (parse-plain_line g (image ∷ []))
        (globals-plain_line g (image ∷ [])) refl
        (valid_contained g.backend (resolved-IsValid g.backend resolved))
        (Triple-modify {Q = Named L t} _ (λ s h. h))
        (reexec-Light H.services _ _ (λ v. Returns-names L U t _ (U.getenv v) (L.getenv_quiet v))
          child (watch H) _)
        (run_remove-Total L t g U resolved image k d from present)

  -- The whole program in the process that it started in its namespace, as `img tag SOURCE TARGET` with
  -- all global flags and the native or the overlayfs backend, over lawful services whose calls before
  -- the image store answer: where both names parse and the source refers to something in the metadata
  -- file of that backend below the state directory, it returns, the target's name there refers to the
  -- same, and no other name of any file or namespace changed.
  pub program-tag-ok :
      (src dest k k' : String) (d : Descriptor) (s : State W)
      → Denotes H.services src k
      → Denotes H.services dest k'
      → L.tags s.host file "buildkit" k ≡ some d
      → ((program H ("tag" ∷ global_words g ("--" ∷ src ∷ dest ∷ [])) s).0 ≡ ok tt)
        × (L.tags (program H ("tag" ∷ global_words g ("--" ∷ src ∷ dest ∷ [])) s).1.host
            ≡ put_tag (L.tags s.host) file "buildkit" k' (some d))
  program-tag-ok src dest k k' d s from to present =
      let (_, e, v) =
        returns _ _ _
          ((program-tag-Total (L.tags s.host) src dest k k' d from to present).at s refl) in
      (e, v)

  -- Under the same conditions, and where the target's name refers to nothing: `img tag SOURCE TARGET`
  -- and then `img rm TARGET`, run in whatever state on the host that the first left, both return, and
  -- all names of all files and namespaces are what they were.
  pub program-tag-remove :
      (src dest k k' : String) (d : Descriptor) (s s' : State W)
      → Denotes H.services src k
      → Denotes H.services dest k'
      → L.tags s.host file "buildkit" k ≡ some d
      → L.tags s.host file "buildkit" k' ≡ none
      → s'.host ≡ (program H ("tag" ∷ global_words g ("--" ∷ src ∷ dest ∷ [])) s).1.host
      → ((program H ("tag" ∷ global_words g ("--" ∷ src ∷ dest ∷ [])) s).0 ≡ ok tt)
        × ((program H ("rm" ∷ global_words g ("--" ∷ dest ∷ [])) s').0 ≡ ok tt)
        × (L.tags (program H ("rm" ∷ global_words g ("--" ∷ dest ∷ [])) s').1.host ≡ L.tags s.host)
  program-tag-remove src dest k k' d s s' from to present absent same =
      let t = L.tags s.host in
      let (tagged, names) = program-tag-ok src dest k k' d s from to present in
      let there : put_tag t file "buildkit" k' (some d) file "buildkit" k' ≡ some d =
        ground (arith, eq_refl file, eq_refl k') in
      let (_, removed, back) = returns _ _ _ (
        (program-remove-Total (put_tag t file "buildkit" k' (some d)) dest k' d to there).at s'
          (ap L.tags same ∙ names)) in
      (tagged, removed, back ∙ put_tag-put_tag t file "buildkit" k' d absent)
