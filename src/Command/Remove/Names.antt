-- ===== src/Command/Remove/Names.antt =====
-- `img rm` against the names of the image store as a map.
use img.Common.{String, List, [], ◌∷◌, ◌++◌, ◌≡◌, refl, inl}
use img.Common.Exec.{modify}
use img.Common.Triple.{
  Triple, Triple-bind, Triple-given, Triple-weaken, Triple-relax, Triple-modify,
}
use img.Services.{Services}
use img.Services.Laws.{Tags, IsLawful}
use img.Client.{State, print, set_client}
use img.Client.Backends.{IsValid, IsResolved}
use img.Backend.{native_backend}
use img.Command.{Globals, buildkit_context}
use img.Command.Remove.{run_remove}
use img.Command.Remove.Sequence.{Cleared, remove_images-Triple}
use img.Command.Tag.Names.{Named, Keeps-names, new-names, backend_root}

module _ {W : Type 0} {S : Services W} (L : IsLawful S) (t : Tags) (g : Globals)
    (valid : IsValid g.backend) where
  -- In the metadata file of one of the backends the names were taken away, one after the other.
  abbrev pub Emptied : List String → State W → Type 0
  Emptied images s =
      (b : String) × (t' : Tags) × IsResolved b
      × Cleared L (backend_root g.state_dir b) (buildkit_context "") "buildkit" refl images t t'
      × (L.tags s.host ≡ t')

  -- So were those of some of the first images, and nothing else.
  abbrev pub PartlyEmptied : List String → State W → Type 0
  PartlyEmptied images s =
      (before : List String) × (rest : List String) × (before ++ rest ≡ images) × Emptied before s

  pub untouched : (images : List String) (s : State W) → Named L t s → PartlyEmptied images s
  untouched images s h = ([], images, refl, (native_backend, t, inl refl, refl, h))

  pub run_remove-Triple :
      (image : String) (images : List String)
      → Triple
          (Named L t)
          (run_remove S g (image ∷ images))
          (λ _. Emptied (image ∷ images))
          (PartlyEmptied (image ∷ images))
  unfolding run_remove print set_client modify
  run_remove-Triple image images =
      Triple-bind (Triple-relax early (Keeps-names L t _ L.new_id_quiet)) λ id.
        Triple-bind (Triple-relax early (new-names L t g.state_dir g.backend [] valid)) λ c.
          Triple-given λ fresh. Triple-bind (Triple-modify _ (λ s h. (h, fresh.1))) λ _.
            Triple-weaken
              (Triple-relax
                (λ s (before, rest, e, (t', cleared, v)).
                  (before, rest, e, (c.backend, t', fresh.0, cleared, v.0)))
                (remove_images-Triple L (backend_root g.state_dir c.backend) (buildkit_context id)
                  "buildkit" refl (image ∷ images) t))
              (λ _ s (t', cleared, v). (c.backend, t', fresh.0, cleared, v.0))
    where
      early : (s : State W) → Named L t s → PartlyEmptied (image ∷ images) s
      early = untouched (image ∷ images)
