-- ===== src/Client/Images/Tagging.antt =====
-- `TagImage` and `RemoveImage` against the names of the image store as a map.
use img.Common.{String, none, some, ◌≡◌, refl}
use img.Common.Exec.{Outcome, ok}
use img.Common.Triple.{
  Triple, Triple-bind, Triple-pure, Triple-or_fail, Triple-given, Triple-weaken,
}
use img.Services.{Services, Context, Descriptor, WorkerOpt}
use img.Services.Laws.{Tags, put_tag, IsLawful}
use img.Client.{State, lift}
use img.Client.Calls.{lift-Triple}
use img.Client.Worker.Opens.{
  View, Reads, metadata_path, Keeps-call, Triple-call, create_worker_opt-Triple,
}
use img.Client.Images.{
  new_image, parse_name, worker_opt, checked_store, unchecked_store, tag_image, remove_image,
}
use img.Client.Images.Upsert.{update_or_create-Triple, delete-Triple, get_fact}

module _ {W : Type 0} (S : Services W) where
  -- The full name that a command line's name stands for.
  abbrev pub Denotes : String → String → Type 0
  Denotes image k =
      (p : String) × (S.references.parse_normalized_named image ≡ ok p)
      × (S.references.tag_name_only p ≡ k)

module _ {W : Type 0} {S : Services W} (L : IsLawful S) (t : Tags) (r : String) where
  pub Triple-lift :
      {A : Type 0} (o : Outcome A)
      → Triple (View L t r) (lift o) (λ a s. View L t r s × (o ≡ ok a)) (View L t r)
  Triple-lift o = lift-Triple (View L t r) (λ a. o ≡ ok a) o (λ a e. e)

  pub parse_name-Triple :
      (image : String)
      → Triple
          (View L t r)
          (parse_name S image)
          (λ k s. View L t r s × Denotes S image k)
          (View L t r)
  unfolding parse_name
  parse_name-Triple image =
      Triple-bind (Triple-or_fail _ (Triple-lift (S.references.parse_normalized_named image)))
        λ p. Triple-given λ e. Triple-pure _ (λ s h. (h, (p, e, refl)))

  pub worker_opt-Triple :
      Triple
        (View L t r)
        (worker_opt S)
        (λ opt s. View L t r s × Reads L (metadata_path r) opt)
        (View L t r)
  unfolding worker_opt
  worker_opt-Triple = Triple-or_fail _ (create_worker_opt-Triple L t r)

  pub checked_store-Triple :
      (opt : WorkerOpt)
      → Reads L (metadata_path r) opt
      → Triple
          (View L t r)
          (checked_store S opt)
          (λ h s. View L t r s × (L.file_of h ≡ metadata_path r))
          (View L t r)
  unfolding checked_store
  checked_store-Triple opt (h, e, file) = rw e (Triple-pure h (λ s v. (v, file)))

  pub unchecked_store-Triple :
      (opt : WorkerOpt)
      → Reads L (metadata_path r) opt
      → Triple
          (View L t r)
          (unchecked_store S opt)
          (λ h s. View L t r s × (L.file_of h ≡ metadata_path r))
          (View L t r)
  unfolding unchecked_store
  unchecked_store-Triple opt (h, e, file) = rw e (Triple-pure h (λ s v. (v, file)))

module _ {W : Type 0} {S : Services W} (L : IsLawful S) (t : Tags) (r : String) (ctx : Context)
    (n : String) (spaced : ctx.namespace ≡ some n) where
  -- The one change that a tagging makes.
  abbrev pub Tagged : String → String → State W → Type 0
  Tagged src dest s =
      (k : String) × (k' : String) × (d : Descriptor) × Denotes S src k
      × Denotes S dest k'
      × (t (metadata_path r) n k ≡ some d)
      × View L (put_tag t (metadata_path r) n k' (some d)) r s

  -- `TagImage` over lawful services, from any state: if it returns, both names parse, the source
  -- refers to something, the target's name now refers to the same, and no other name of any file or
  -- namespace changes; if it fails, in whatever way, no name changes.
  pub tag_image-Triple :
      (src dest : String)
      → Triple (View L t r) (tag_image S ctx src dest) (λ _. Tagged src dest) (View L t r)
  unfolding tag_image
  tag_image-Triple src dest = Triple-bind (parse_name-Triple L t r src) λ k. Triple-given λ from.
      Triple-bind (parse_name-Triple L t r dest) λ k'. Triple-given λ to.
        Triple-bind (worker_opt-Triple L t r) λ opt. Triple-given λ reads.
          Triple-bind (checked_store-Triple L t r opt reads) λ h. Triple-given λ file.
            Triple-bind
              (Triple-or_fail _ (
                Triple-call L t r (S.images.get h ctx k) (λ i. t (L.file_of h) n k ≡ some i.target)
                  (L.get_quiet h ctx k) (get_fact L t r ctx n spaced h k)))
              λ i. Triple-given λ found.
                Triple-bind (Keeps-call L t r S.files.now L.now_quiet) λ now.
                  Triple-weaken
                    (update_or_create-Triple L t r ctx n spaced h (View L t r)
                      (new_image k' i.target now))
                    λ _ s v. (k, k', i.target, from, to, rw file at found, rw file at v)

  -- The one change that a removal makes.
  abbrev pub Removed : String → State W → Type 0
  Removed image s =
      (k : String) × (d : Descriptor) × Denotes S image k
      × (t (metadata_path r) n k ≡ some d)
      × View L (put_tag t (metadata_path r) n k none) r s

  -- `RemoveImage` over lawful services, from any state: if it returns, the name parses, it referred to
  -- something, it refers to nothing now, and no other name changes; if it fails, in whatever way, no
  -- name changes.
  pub remove_image-Triple :
      (image : String)
      → Triple (View L t r) (remove_image S ctx image) (λ _. Removed image) (View L t r)
  unfolding remove_image
  remove_image-Triple image = Triple-bind (parse_name-Triple L t r image) λ k. Triple-given λ name.
      Triple-bind (worker_opt-Triple L t r) λ opt. Triple-given λ reads.
        Triple-bind (unchecked_store-Triple L t r opt reads) λ h. Triple-given λ file.
          Triple-or_fail _ (
            Triple-weaken (delete-Triple L t r ctx n spaced h k)
              λ _ s (d, found, v). (k, d, name, rw file at found, rw file at v))
