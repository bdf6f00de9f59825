-- ===== src/Client/Images/Total.antt =====
-- When `TagImage` returns: the steps that end in the store's answer.
use img.Common.{String, some, ◌≡◌, refl, ◌∙◌, ap}
use img.Common.Exec.{ok, ◌>>=◌}
use img.Common.Triple.{
  Triple, Triple-bind, Triple-pure, Triple-or_fail, Triple-given, Triple-weaken, returns,
}
use img.Services.{Services, Handle, Context, Descriptor, WorkerOpt}
use img.Services.Laws.{Tags, put_tag, IsLawful}
use img.Client.{State, call, lift}
use img.Client.Worker.{create_worker_opt}
use img.Client.Worker.Opens.{View, Reads, metadata_path, create_worker_opt-Triple}
use img.Client.Worker.Up.{Never}
use img.Client.Images.{new_image, parse_name, worker_opt, checked_store, unchecked_store}
use img.Client.Images.{tag_image}
use img.Client.Images.Upsert.{update_or_create-Triple}
use img.Client.Images.Tagging.{Denotes}

module _ {W : Type 0} (S : Services W) where
  pub parse_name-returns :
      (P : State W → Type 0) (image k : String)
      → Denotes S image k
      → Triple P (parse_name S image) (λ k' s. P s × (k' ≡ k)) Never
  unfolding parse_name lift ◌>>=◌
  parse_name-returns P image k (p, parsed, e) = rw parsed (record { at = λ s h. (h, e) })

module _ {W : Type 0} {S : Services W} (L : IsLawful S) (s : State W) where
  abbrev pub Here : State W → Type 0
  Here = View L (L.tags s.host) s.client.root

  pub worker_opt-returns :
      (opt : WorkerOpt)
      → (create_worker_opt S s).0 ≡ ok opt
      → Triple
          (λ st. st ≡ s)
          (worker_opt S)
          (λ o st. Here st × Reads L (metadata_path s.client.root) o)
          Never
  unfolding worker_opt ◌>>=◌
  worker_opt-returns opt opened = record {
    at = λ st e.
        rw (e, opened)
          (rw opened at
            ((create_worker_opt-Triple L (L.tags s.host) s.client.root).at s (refl, refl)));
  }

  checked_store-returns :
      (opt : WorkerOpt)
      → Reads L (metadata_path s.client.root) opt
      → Triple Here
          (checked_store S opt)
          (λ h st. Here st × (L.file_of h ≡ metadata_path s.client.root))
          Never
  unfolding checked_store
  checked_store-returns opt (h, e, file) = rw e (Triple-pure h (λ st v. (v, file)))

  pub unchecked_store-returns :
      (opt : WorkerOpt)
      → Reads L (metadata_path s.client.root) opt
      → Triple Here
          (unchecked_store S opt)
          (λ h st. Here st × (L.file_of h ≡ metadata_path s.client.root))
          Never
  unfolding unchecked_store
  unchecked_store-returns opt (h, e, file) = rw e (Triple-pure h (λ st v. (v, file)))

  now-returns : Triple Here (call S.files.now) (λ _. Here) Never
  unfolding call
  now-returns = record {
    at = λ st v. let (time, e) = L.now_returns st.host in rw e (L.now_quiet st.host ∙ v.0, v.1);
  }

  module _ (ctx : Context) (n : String) (spaced : ctx.namespace ≡ some n) (h : Handle) where
    get-returns :
        (k : String) (d : Descriptor)
        → L.tags s.host (L.file_of h) n k ≡ some d
        → Triple Here (call (S.images.get h ctx k)) (λ i st. Here st × (i.target ≡ d)) Never
    unfolding call
    get-returns k d present = record {
      at = λ st v.
          let (i, answer, name, target) =
            L.get_found h ctx n k d st.host spaced
              (ap (λ (u : Tags). u (L.file_of h) n k) v.0 ∙ present) in
          rw answer ((L.get_quiet h ctx k st.host ∙ v.0, v.1), target);
    }

module _ {W : Type 0} {S : Services W} (L : IsLawful S) (ctx : Context) (n : String)
    (spaced : ctx.namespace ≡ some n) where
  tag_image-returns :
      (src dest k k' : String) (d : Descriptor) (opt : WorkerOpt) (s : State W)
      → Denotes S src k
      → Denotes S dest k'
      → (create_worker_opt S s).0 ≡ ok opt
      → L.tags s.host (metadata_path s.client.root) n k ≡ some d
      → Triple
          (λ st. st ≡ s)
          (tag_image S ctx src dest)
          (λ _.
            View L
              (put_tag (L.tags s.host) (metadata_path s.client.root) n k' (some d))
              s.client.root)
          Never
  unfolding tag_image
  tag_image-returns src dest k k' d opt s from to opened present =
      Triple-bind (parse_name-returns S _ src k from) λ k₁. Triple-given λ e₁.
        Triple-bind (parse_name-returns S _ dest k' to) λ k₂. Triple-given λ e₂.
          Triple-bind (worker_opt-returns L s opt opened) λ o. Triple-given λ reads.
            Triple-bind (checked_store-returns L s o reads) λ h. Triple-given λ file. rw e₁ (
              Triple-bind (Triple-or_fail _ (get-returns L s ctx n spaced h k d (rw file present)))
                λ i. Triple-given λ target. Triple-bind (now-returns L s) λ now.
                  Triple-weaken
                    (update_or_create-Triple L (L.tags s.host) s.client.root ctx n spaced h Never
                      (new_image k₂ i.target now))
                    λ _ st v. rw (← file, ← e₂, ← target) v)

  -- Over lawful services, `TagImage` succeeds where the two names parse, the worker's stores open and
  -- the source is there. Then the target's name refers to what the source's name refers to, and no
  -- other name changes.
  pub tag_image-ok :
      (src dest k k' : String) (d : Descriptor) (opt : WorkerOpt) (s : State W)
      → Denotes S src k
      → Denotes S dest k'
      → (create_worker_opt S s).0 ≡ ok opt
      → L.tags s.host (metadata_path s.client.root) n k ≡ some d
      → ((tag_image S ctx src dest s).0 ≡ ok tt)
        × (L.tags (tag_image S ctx src dest s).1.host
            ≡ put_tag (L.tags s.host) (metadata_path s.client.root) n k' (some d))
  tag_image-ok src dest k k' d opt s from to opened present =
      let (_, e, v) =
        returns _ _ _
          ((tag_image-returns src dest k k' d opt s from to opened present).at s refl) in
      (e, v.0)
