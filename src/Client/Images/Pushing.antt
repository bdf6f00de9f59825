-- ===== src/Client/Images/Pushing.antt =====
-- `Push` against the names of the image store as a map.
use img.Common.{String, Bool, some, ◌≡◌}
use img.Common.Triple.{Triple, Triple-bind, Triple-or_fail, Triple-given, Triple-weaken}
use img.Services.{Services, Context, Descriptor}
use img.Services.Laws.{Tags, IsLawful}
use img.Client.Worker.Opens.{View, metadata_path, Keeps-call, Triple-call}
use img.Client.Images.{push}
use img.Client.Images.Upsert.{get_fact}
use img.Client.Images.Tagging.{
  Denotes, parse_name-Triple, worker_opt-Triple, unchecked_store-Triple,
}

module _ {W : Type 0} {S : Services W} (L : IsLawful S) (t : Tags) (r : String) (ctx : Context)
    (n : String) (spaced : ctx.namespace ≡ some n) where
  -- The name parses, and refers to something in the client's metadata file.
  abbrev pub IsPresent : String → Type 0
  IsPresent image =
      (k : String) × (d : Descriptor) × Denotes S image k × (t (metadata_path r) n k ≡ some d)

  pub push-Triple :
      (image : String) (insecure : Bool)
      → Triple
          (View L t r)
          (push S ctx image insecure)
          (λ _ s. View L t r s × IsPresent image)
          (View L t r)
  unfolding push
  push-Triple image insecure = Triple-bind (parse_name-Triple L t r image) λ k. Triple-given λ name.
      Triple-bind (worker_opt-Triple L t r) λ opt. Triple-given λ reads.
        Triple-bind (unchecked_store-Triple L t r opt reads) λ h. Triple-given λ file.
          Triple-bind
            (Triple-or_fail _ (
              Triple-call L t r (S.images.get h ctx k) (λ i. t (L.file_of h) n k ≡ some i.target)
                (L.get_quiet h ctx k) (get_fact L t r ctx n spaced h k)))
            λ i. Triple-given λ found.
              Triple-weaken (Keeps-call L t r _ (L.push_quiet _ _ _ _ _ _))
                λ _ s v. (v, (k, i.target, name, rw file at found))
