-- ===== src/Main/Printing.antt =====
-- The whole program, called as `img ls` and as `img du`.
use img.Common.{String, Bool, false, List, [], ◌∷◌, ◌++◌, ◌≡◌, refl}
use img.Common.Exec.{ok}
use img.Common.Int.{ℤ}
use img.Common.Output.{Line}
use img.Common.Triple.{Triple, Triple-both, Triple-lax, Triple-modify, anything}
use img.Services.{Image}
use img.Client.{call, print}
use img.Client.Backends.{IsValid}
use img.Client.Silent.{Said, Silent-call}
use img.Client.Picked.{IsPicked}
use img.Client.Worker.Keeps.{OnHost, Preserves, Keeps-host}
use img.Command.{Globals}
use img.Command.Listing.Table.{Lists, Tabled, title, listing, run_list-Triple}
use img.Main.{find, set_level}
use img.Main.Building.{valid_contained}
use img.Main.Commands.{Setup, watch, commands, list_command, program}
use img.Main.Light.{reexec-Light, main-Light}
use img.Main.Words.{global_words, filter_words, list_line, parse-list, globals-list, filters-list}

module _ {W : Type 0} (H : Setup W)
    (child : (w : W) → (H.services.processes.getenv "IMG_DO_UNSHARE" w).0 ≡ ok "1") (g : Globals)
    (plain : g.debug ≡ false) (valid : IsValid g.backend) (before : List Line) where
  level :
      (P : W → Type 0)
      → Triple
          (λ s. OnHost P s × Said before s)
          (set_level false)
          (λ _ s. OnHost P s × Said before s)
          (λ _. Unit {0})
  unfolding set_level
  level P = Triple-modify _ (λ s h. h)

  reads :
      (P : W → Type 0) (v : String)
      → Preserves P (H.services.processes.getenv v)
      → Triple
          (λ s. OnHost P s × Said before s)
          (call (H.services.processes.getenv v))
          (λ _ s. OnHost P s × Said before s)
          (λ _. Unit {0})
  reads P v k = Triple-lax (Triple-both (Keeps-host P _ k) (Silent-call before _))

  module _ {P : W → Type 0} (env : (v : String) → Preserves P (H.services.processes.getenv v))
      {images : String → List String → List Image} {size_of : String → Image → ℤ} {supported : Bool}
      (L : Lists H.services P g.state_dir images size_of supported) (fs args : List String) where
    -- The whole program in the process that it started in its namespace, as `img ls` with all global
    -- flags but -d and any number of filters: if it returns, it has printed the title and below it one
    -- row for each image that the filters select from the metadata file of the backend below the state
    -- directory, none where there is no such file, in their order, with its name, the size of its
    -- content in the directory of the backend, two ages and its digest, and nothing else. The backend
    -- is the one that -backend names, or where that is auto overlayfs or native, as the kernel supports
    -- overlay file systems or not. What a database lists and how large an image is are known of the
    -- handles that the host opened that file and that directory with.
    pub program-list :
        Triple
          (λ s. OnHost P s × Said before s)
          (program H ("ls" ∷ global_words g (filter_words fs args)))
          (λ _ s.
            (b : String) × IsPicked supported g.backend b
            × Tabled H.services (before ++ (title ∷ [])) (listing g L valid b fs) s)
          (λ _. Unit {0})
    unfolding program find
    program-list =
        main-Light H.services (watch H) (commands H) (list_command H)
          (λ line. anything (print line)) "ls" (global_words g (filter_words fs args))
          (list_line g fs args) g refl refl (parse-list H g fs args) (globals-list g fs args) refl
          (valid_contained g.backend valid) (rw plain (level P))
          (reexec-Light H.services _ _ (λ v. reads P v (env v)) child (watch H) _)
          (rw (filters-list g fs args) (run_list-Triple g L valid fs before))
