-- ===== src/Client/Images/Pulling.antt =====
-- `Pull` against the names of the image store as a map.
use img.Common.{String, some, ◌≡◌, ◌⊎◌, inl, inr}
use img.Common.Triple.{
  Triple, Triple-bind, Triple-pure, Triple-or_fail, Triple-given, Triple-weaken, Triple-relax,
}
use img.Services.{Services, Context, Descriptor}
use img.Services.Laws.{Tags, put_tag, IsLawful}
use img.Client.{State}
use img.Client.Worker.Opens.{View, metadata_path, Keeps-call}
use img.Client.Images.{new_image, pull}
use img.Client.Images.Upsert.{update_or_create-Triple}
use img.Client.Images.Tagging.{
  Denotes, Triple-lift, parse_name-Triple, worker_opt-Triple, unchecked_store-Triple,
}

module _ {W : Type 0} {S : Services W} (L : IsLawful S) (t : Tags) (r : String) (ctx : Context)
    (n : String) (spaced : ctx.namespace ≡ some n) where
  -- The one change that a pull makes: the name refers to `d`.
  abbrev pub Pulled : String → String → Descriptor → State W → Type 0
  Pulled image k d s = Denotes S image k × View L (put_tag t (metadata_path r) n k (some d)) r s

  -- After a failure: no change, or that one.
  abbrev pub Untouched : String → State W → Type 0
  Untouched image s = View L t r s ⊎ ((k : String) × (d : Descriptor) × Pulled image k d s)

  -- `Pull` over lawful services, from any state: if it returns, the name parses, the image that is
  -- returned has the full name, that name refers to its target, and no other name changes; if it
  -- fails, in whatever way, either no name changes or that one change was made.
  pub pull-Triple :
      (image : String)
      → Triple
          (View L t r)
          (pull S ctx image)
          (λ i s. Pulled image i.image.name i.image.target s)
          (Untouched image)
  unfolding pull
  pull-Triple image = Triple-bind (Triple-relax (λ s. inl) (parse_name-Triple L t r image)) λ k.
      Triple-given λ name. Triple-bind (Triple-relax (λ s. inl) (Triple-lift L t r _)) λ src.
        Triple-given λ _. Triple-bind (Triple-relax (λ s. inl) (worker_opt-Triple L t r)) λ opt.
          Triple-given λ reads.
            Triple-bind (Triple-relax (λ s. inl) (Keeps-call L t r _ (L.pull_quiet _ ctx)))
              λ target.
                Triple-bind (Triple-relax (λ s. inl) (Keeps-call L t r S.files.now L.now_quiet))
                  λ now.
                    Triple-bind (Triple-relax (λ s. inl) (unchecked_store-Triple L t r opt reads))
                      λ h. Triple-given λ file.
                        Triple-bind
                          (Triple-weaken
                            (update_or_create-Triple L t r ctx n spaced h (Untouched image)
                              (new_image k target now))
                            (λ _ s v. rw file at v))
                          λ _.
                            Triple-bind
                              (Triple-or_fail _ (
                                Triple-relax (λ s v. inr (k, target, (name, v)))
                                  (Keeps-call L _ r _ (L.size_quiet _ ctx _))))
                              λ size. Triple-pure _ (λ s v. (name, v))
