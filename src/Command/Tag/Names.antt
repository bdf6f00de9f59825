-- ===== src/Command/Tag/Names.antt =====
-- `img tag` against the names of the image store as a map.
use img.Common.{String, some, List, [], ◌∷◌, ◌≡◌, refl, ◌∙◌}
use img.Common.Exec.{Exec, modify}
use img.Common.FilePath
use img.Common.Triple.{
  Triple, Keeps, Triple-bind, Triple-given, Triple-weaken, Triple-relax, Triple-modify, keeps_all,
}
use img.Services.{Services}
use img.Services.Laws.{Tags, put_tag, IsLawful, IsQuiet}
use img.Client.{State, call, print, set_client, new}
use img.Client.Backends.{IsValid, IsResolved, IsFresh, new-OnHost}
use img.Client.Worker.Opens.{View, metadata_path}
use img.Client.Images.Tagging.{Denotes, tag_image-Triple}
use img.Command.{Globals, buildkit_context}
use img.Command.Tag.{run_tag}

module _ {W : Type 0} {S : Services W} (L : IsLawful S) (t : Tags) where
  -- The names, whatever the client is.
  abbrev pub Named : State W → Type 0
  Named s = L.tags s.host ≡ t

  pub Keeps-names : {A : Type 0} (m : Exec W A) → IsQuiet L.tags m → Keeps Named (call m)
  unfolding call
  Keeps-names m q = record {
    at = λ s h. keeps_all Named (m s.host).0 (record s { host = (m s.host).1 }) (q s.host ∙ h);
  }

  -- `New` leaves the names alone, and the client that it returns works below its backend's directory.
  pub new-names :
      (root backend : String) (dirs : List (String × String))
      → IsValid backend
      → Triple Named (new S root backend dirs) (λ c s. Named s × IsFresh S root c) Named
  new-names =
      new-OnHost S (λ w. L.tags w ≡ t) (λ p w h. L.supported_quiet p w ∙ h)
        (λ p mode w h. L.mkdir_quiet p mode w ∙ h)

-- The directory of one of the two backends.
abbrev pub backend_root : String → String → String
backend_root state_dir b = FilePath.join (state_dir ∷ "runc" ∷ b ∷ [])

module _ {W : Type 0} {S : Services W} (L : IsLawful S) (t : Tags) (g : Globals)
    (valid : IsValid g.backend) where
  -- In the metadata file of one of the backends, `dest` refers to what `src` does, and no other name
  -- of any file or namespace changed.
  abbrev pub Retagged : String → String → State W → Type 0
  Retagged src dest s =
      (b : String) × (k : String) × (k' : String) × IsResolved b
      × Denotes S src k
      × Denotes S dest k'
      × ((d : _) × (t (metadata_path (backend_root g.state_dir b)) "buildkit" k ≡ some d)
          × (L.tags s.host
              ≡ put_tag t (metadata_path (backend_root g.state_dir b)) "buildkit" k' (some d)))

  pub run_tag-Triple :
      (src dest : String) (more : List String)
      → Triple (Named L t) (run_tag S g (src ∷ dest ∷ more)) (λ _. Retagged src dest) (Named L t)
  unfolding run_tag print set_client modify
  run_tag-Triple src dest more = Triple-bind (Keeps-names L t _ L.new_id_quiet) λ id.
      Triple-bind (new-names L t g.state_dir g.backend [] valid) λ c. Triple-given λ fresh.
        Triple-bind (Triple-modify _ (λ s h. (h, fresh.1))) λ _.
          Triple-bind
            (Triple-weaken
              (Triple-relax (λ s (v : View L t (backend_root g.state_dir c.backend) s). v.0)
                (tag_image-Triple L t (backend_root g.state_dir c.backend) (buildkit_context id)
                  "buildkit" refl src dest))
              (λ _ s (k, k', d, from, to, found, v).
                (c.backend, k, k', fresh.0, from, to, (d, found, v.0))))
            λ _. Triple-modify _ (λ s h. h)
