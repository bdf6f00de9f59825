-- ===== src/Command/Listing/Table.antt =====
-- The table that `img ls` prints.
use mathlib.Core.List.{append_assoc, append-nil}
use img.Common.{ℕ, Bool, List, [], ◌∷◌, ◌++◌, ◌≡◌, refl, sym, ap, ◌∙◌, String, map}
use img.Common.Exec.{modify}
use img.Common.Int.{ℤ}
use img.Common.Output.{Line, text, size, age, stdout}
use img.Common.Triple.{
  Triple, Triple-bind, Triple-pure, Triple-given, Triple-weaken, Triple-relax, Triple-modify,
  Triple-both, Triple-lax, Triple-from,
}
use img.Services.{Services, Image}
use img.Client.{State, call, print, set_client, new, succeeded}
use img.Client.Images.{ListedImage}
use img.Client.Picked.{IsPicked, new-Picked}
use img.Client.Worker.Opens.{metadata_path}
use img.Client.Images.Listed.{Holds, Below, content_path, entry, list_images-Triple}
use img.Client.Silent.{Said, Silent-call, new-Silent, list_images-Silent}
use img.Client.Backends.{IsValid, IsFresh, new-OnHost}
use img.Client.Worker.Keeps.{Preserves, OnHost, Keeps-host}
use img.Command.{Globals, buildkit_context}
use img.Command.Tag.Names.{backend_root}
use img.Command.Listing.{print_images, run_list}

-- The row of an image, at the two times at which the clock was read.
abbrev pub row : ℕ → ℕ → ListedImage → Line
row now now' l = stdout "%s\t%s\t%s\t%s\t%s\n" (
    text l.image.name
    ∷ size l.content_size
    ∷ age now l.image.created_at
    ∷ age now' l.image.updated_at
    ∷ text l.image.target.digest
    ∷ [])

-- One row for each image, in their order.
abbrev pub AreRows : List ListedImage → List Line → Type 0
AreRows [] rows = rows ≡ []
AreRows (l ∷ ls) rows =
    (now : ℕ) × (now' : ℕ) × (rest : List Line) × (rows ≡ row now now' l ∷ rest) × AreRows ls rest

module _ {W : Type 0} (S : Services W) where
  -- The lines are `before` and a table of the images.
  abbrev pub Tabled : List Line → List ListedImage → State W → Type 0
  Tabled before ls s = (rows : List Line) × AreRows ls rows × (s.out ≡ before ++ rows)

  clock :
      (before : List Line)
      → Triple (Said before) (call S.files.now) (λ _. Said before) (λ _. Unit {0})
  clock before = Triple-relax (λ s h. tt) (Silent-call before S.files.now)

  pub print_images-Triple :
      (ls : List ListedImage) (before : List Line)
      → Triple (Said before) (print_images S ls) (λ _. Tabled before ls) (λ _. Unit {0})
  unfolding print_images print modify
  print_images-Triple [] before = Triple-pure tt (λ s h. ([], refl, h.1 ∙ sym (append-nil before)))
  print_images-Triple (l ∷ ls) before = Triple-bind (clock before) λ now.
      Triple-bind (clock before) λ now'.
        Triple-bind
          (Triple-modify {Q = Said (before ++ (row now now' l ∷ []))} _
            (λ s h. (h.0, ap (λ o. o ++ (row now now' l ∷ [])) h.1)))
          λ _.
            Triple-weaken (print_images-Triple ls (before ++ (row now now' l ∷ [])))
              (λ _ s (rows, are, e).
                (row now now' l ∷ rows, (now, now', rows, refl, are), e ∙ append_assoc before _ _))

abbrev pub title : Line
title = stdout "NAME\tSIZE\tCREATED AT\tUPDATED AT\tDIGEST\n" []

-- A host of which `P` holds, whose kernel supports overlay file systems or not.
pub record Lists {W : Type 0} (S : Services W) (P : W → Type 0) (state_dir : String)
    (images : String → List String → List Image) (size_of : String → Image → ℤ) (supported : Bool)
    : Type 0 where
  pub holds : Holds S P images size_of
  pub id_keeps : Preserves P S.sessions.new_id
  pub mkdir_keeps : (path : String) (mode : ℕ) → Preserves P (S.files.mkdir_all path mode)
  pub probe_keeps : (path : String) → Preserves P (S.workers.overlay_supported path)
  pub probes : (w : W) → P w → succeeded (S.workers.overlay_supported state_dir w).0 ≡ supported

module _ {W : Type 0} {S : Services W} {P : W → Type 0} (g : Globals)
    {images : String → List String → List Image} {size_of : String → Image → ℤ} {supported : Bool}
    (H : Lists S P g.state_dir images size_of supported) (valid : IsValid g.backend) where
  new-Said :
      (before : List Line)
      → Triple
          (λ s. OnHost P s × Said before s)
          (new S g.state_dir g.backend [])
          (λ c s.
            (OnHost P s × Said before s)
            × (IsFresh S g.state_dir c × IsPicked supported g.backend c.backend))
          (λ _. Unit {0})
  new-Said before =
      Triple-weaken
        (Triple-lax (
          Triple-from (λ s h. (h, h))
            (Triple-both
              (Triple-both
                (new-OnHost S P H.probe_keeps H.mkdir_keeps g.state_dir g.backend [] valid)
                (new-Silent S before _ _ _))
              (Triple-from (λ s h. h.0)
                (new-Picked S P supported g.state_dir H.probes g.backend [])))))
        (λ c s (((h, fresh), said), pick). ((h, said), (fresh, pick)))

  -- What `img ls` lists: the images that the filters select from the metadata file of the backend, each
  -- with the size of its content below the directory of the backend.
  abbrev pub listing : String → List String → List ListedImage
  listing b fs =
      let root = backend_root g.state_dir b in
      map (entry (size_of (content_path root))) (images (metadata_path root) fs)

  -- `img ls` without `-d`: if it returns, it has printed the title and below it one row for each image of
  -- the listing of the backend that is picked, and nothing else.
  pub run_list-Triple :
      (fs : List String) (before : List Line)
      → Triple
          (λ s. OnHost P s × Said before s)
          (run_list S g fs)
          (λ _ s.
            (b : String) × IsPicked supported g.backend b
            × Tabled S (before ++ (title ∷ [])) (listing b fs) s)
          (λ _. Unit {0})
  unfolding run_list print set_client modify
  run_list-Triple fs before =
      Triple-bind (Triple-lax (Triple-both (Keeps-host P _ H.id_keeps) (Silent-call before _)))
        λ id. Triple-bind (new-Said before) λ c. Triple-given λ fresh.
          let root = backend_root g.state_dir c.backend in
          Triple-bind
            (Triple-modify
              {Q = λ s. Below H.holds root (buildkit_context id) refl s × Said before s} _
              (λ s (h, said). ((h, fresh.0.1), said)))
            λ _.
              Triple-bind
                (Triple-weaken
                  (Triple-lax (
                    Triple-both (list_images-Triple H.holds root (buildkit_context id) refl fs)
                      (list_images-Silent S before _ fs)))
                  (λ ls s ((h, e), said). (said, e)))
                λ ls. Triple-given λ e.
                  Triple-bind
                    (Triple-modify {Q = Said (before ++ (title ∷ []))} _
                      (λ s h. (h.0, ap (λ o. o ++ (title ∷ [])) h.1)))
                    λ _.
                      Triple-weaken (print_images-Triple S ls (before ++ (title ∷ [])))
                        (λ _ s h. (c.backend, fresh.1, rw (← e) h))
