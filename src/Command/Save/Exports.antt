-- ===== src/Command/Save/Exports.antt =====
-- `SaveImage` and the loop of `img save` against the exports that were made.
use mathlib.Core.List.{append_assoc, append-nil}
use img.Common.{
  ℕ, String, List, [], ◌∷◌, ◌++◌, some, ◌≡◌, refl, ◌∙◌, sym, ap, inl, inr, Option-cases,
}
use img.Common.Exec.{Exec, ok}
use img.Common.Triple.{
  Triple, Keeps, Triple-bind, Triple-given, Triple-relax, Triple-or_fail, Triple-pure,
  Triple-weaken, Triple-both, Triple-at,
}
use img.Services.{Services, Handle, Context, Descriptor, Image}
use img.Services.Laws.{Tags, IsLawful, IsQuiet}
use img.Client.{State, call}
use img.Client.Images.{save_image}
use img.Client.Images.Parts.{parse_name-OnHost, worker_opt-OnHost, checked_store-OnHost}
use img.Client.Images.Tagging.{Denotes, parse_name-Triple, worker_opt-Triple, checked_store-Triple}
use img.Client.Images.Upsert.{get_fact}
use img.Client.Worker.Keeps.{Pieces, Preserves, OnHost, Keeps-host}
use img.Client.Worker.Opens.{View, metadata_path, Keeps-call, Triple-call}
use img.Command.{buildkit_context}
use img.Command.Save.{save_images}

-- An export that was made: under which name, of what, and to which writer.
pub record Export : Type 0 where
  pub name : String
  pub target : Descriptor
  pub writer : Handle

-- The exports that the host made: `Export` alone adds to them. `os.Create` of a path that names no
-- metadata file leaves the names alone, and so does an export to a writer that goes into none, as the
-- one that such a call of `os.Create` returns.
pub record Exports {W : Type 0} {S : Services W} (L : IsLawful S) : Type 1 where
  pub made : W → List Export
  pub pieces : (l : List Export) → Pieces S (λ w. made w ≡ l)
  pub getenv : (l : List Export) (v : String) → Preserves (λ w. made w ≡ l) (S.processes.getenv v)
  pub new_id : (l : List Export) → Preserves (λ w. made w ≡ l) S.sessions.new_id
  pub probe :
      (l : List Export) (p : String) → Preserves (λ w. made w ≡ l) (S.workers.overlay_supported p)
  pub mkdir :
      (l : List Export) (p : String) (m : ℕ) → Preserves (λ w. made w ≡ l) (S.files.mkdir_all p m)
  pub create : (l : List Export) (path : String) → Preserves (λ w. made w ≡ l) (S.files.create path)
  pub terminal : (l : List Export) → Preserves (λ w. made w ≡ l) S.files.stdout_is_terminal
  pub get :
      (l : List Export) (h : Handle) (ctx : Context) (k : String)
      → Preserves (λ w. made w ≡ l) (S.images.get h ctx k)
  pub close : (l : List Export) (h : Handle) → Preserves (λ w. made w ≡ l) (S.files.close h)
  pub export :
      (ctx : Context) (name : String) (content : Handle) (target : Descriptor) (h : Handle) (w : W)
      → (S.images.export ctx name content target h w).0 ≡ ok tt
      → made (S.images.export ctx name content target h w).1
        ≡ made w ++ (record { name = name; target = target; writer = h } ∷ [])
  -- The path names a metadata file of an image store, and the writer goes into one.
  pub IsImageFile : String → Type 0
  pub GoesIntoOne : Handle → Type 0
  pub create_quiet : (path : String) → ¬ IsImageFile path → IsQuiet L.tags (S.files.create path)
  pub created :
      (path : String) (w : W) (h : Handle)
      → ¬ IsImageFile path
      → (S.files.create path w).0 ≡ ok h
      → ¬ GoesIntoOne h
  pub terminal_quiet : IsQuiet L.tags S.files.stdout_is_terminal
  pub close_quiet : (h : Handle) → IsQuiet L.tags (S.files.close h)
  pub export_quiet :
      (ctx : Context) (name : String) (content : Handle) (target : Descriptor) (h : Handle)
      → ¬ GoesIntoOne h
      → IsQuiet L.tags (S.images.export ctx name content target h)

module _ {W : Type 0} {S : Services W} {L : IsLawful S} (X : Exports L) (t : Tags)
    (r : String) where
  -- The exports of the images, in their order and to one writer: each under its full name, of what that
  -- name refers to in the client's metadata file.
  abbrev pub AreExports : Handle → List String → List Export → Type 0
  AreExports w [] es = es ≡ []
  AreExports w (image ∷ images) es =
      (k : String) × (d : Descriptor) × (rest : List Export) × Denotes S image k
      × (t (metadata_path r) "buildkit" k ≡ some d)
      × (es ≡ record { name = k; target = d; writer = w } ∷ rest)
      × AreExports w images rest

  -- The names, and the exports so far.
  abbrev pub Made : List Export → State W → Type 0
  Made l s = View L t r s × (X.made s.host ≡ l)

  module _ {A : Type 0} {m : Exec (State W) A} (l : List Export) where
    pub both :
        {Fact : A → Type 0}
        → Triple (View L t r) m (λ a s. View L t r s × Fact a) (View L t r)
        → Keeps (OnHost (λ w. X.made w ≡ l)) m
        → Triple (Made l) m (λ a s. Made l s × Fact a) (View L t r)
    both u k =
        Triple-relax (λ s h. h.0) (Triple-weaken (Triple-both u k) (λ a s h. ((h.0.0, h.1), h.0.1)))

    pub both_keep :
        Keeps (View L t r) m
        → Keeps (OnHost (λ w. X.made w ≡ l)) m
        → Triple (Made l) m (λ _. Made l) (View L t r)
    both_keep u k = Triple-relax (λ s h. h.0) (Triple-both u k)

  get_name :
      (ctx : Context) (h : Handle) (k : String) (w : W) (i : Image)
      → ctx.namespace ≡ some "buildkit"
      → L.tags w ≡ t
      → (S.images.get h ctx k w).0 ≡ ok i
      → i.name ≡ k
  get_name ctx h k w i spaced e got = elim (Option-cases (L.tags w (L.file_of h) "buildkit" k)) [
    | inl absent ↦ let (text, answer) = L.get_missing h ctx "buildkit" k w spaced absent in cc
    | inr (d, present) ↦
        let (j, answer, name, target) = L.get_found h ctx "buildkit" k d w spaced present in
        let same : j ≡ i = cc in sym (ap (λ (i : Image). i.name) same) ∙ name
  ]

  module _ (id : String) (w : Handle) (aside : ¬ X.GoesIntoOne w) (l : List Export) where
    get-Triple :
        (h : Handle) (k : String)
        → Triple
            (Made l)
            (call (S.images.get h (buildkit_context id) k))
            (λ i s. Made l s × ((i.name ≡ k) × (t (L.file_of h) "buildkit" k ≡ some i.target)))
            (View L t r)
    get-Triple h k =
        both l
          (Triple-call L t r (S.images.get h (buildkit_context id) k)
            (λ i. (i.name ≡ k) × (t (L.file_of h) "buildkit" k ≡ some i.target))
            (L.get_quiet h (buildkit_context id) k)
            (λ v i e got. (
              get_name (buildkit_context id) h k v i refl e got,
              get_fact L t r (buildkit_context id) "buildkit" refl h k v i e got,
            )))
          (Keeps-host (λ v. X.made v ≡ l) _ (X.get l h (buildkit_context id) k))

    export-Triple :
        (name : String) (content : Handle) (target : Descriptor)
        → Triple
            (Made l)
            (call (S.images.export (buildkit_context id) name content target w))
            (λ _. Made (l ++ (record { name = name; target = target; writer = w } ∷ [])))
            (View L t r)
    unfolding call
    export-Triple name content target =
        Triple-at _
          (λ s h a e. (
            (X.export_quiet _ name content target w aside s.host ∙ h.0.0, h.0.1),
            X.export _ name content target w s.host e
                ∙ ap (λ m. m ++ (record { name = name; target = target; writer = w } ∷ [])) h.1,
          ))
          (λ s h. (X.export_quiet _ name content target w aside s.host ∙ h.0.0, h.0.1))

    save_image-Triple :
        (image : String)
        → Triple
            (Made l)
            (save_image S (buildkit_context id) image w)
            (λ _ s.
              (k : String) × (d : Descriptor) × Denotes S image k
              × (t (metadata_path r) "buildkit" k ≡ some d)
              × Made (l ++ (record { name = k; target = d; writer = w } ∷ [])) s)
            (View L t r)
    unfolding save_image
    save_image-Triple image =
        Triple-bind (both l (parse_name-Triple L t r image) (parse_name-OnHost S _ image)) λ k.
          Triple-given λ name.
            Triple-bind (both l (worker_opt-Triple L t r) (worker_opt-OnHost S _ (X.pieces l)))
              λ opt. Triple-given λ reads.
                Triple-bind
                  (both l (checked_store-Triple L t r opt reads) (checked_store-OnHost S _ opt))
                  λ h. Triple-given λ file. Triple-bind (Triple-or_fail _ (get-Triple h k)) λ i.
                    Triple-given λ found. rw found.0 (
                      Triple-bind (Triple-or_fail _ (export-Triple k opt.content_store i.target))
                        λ _.
                          Triple-weaken
                            (both_keep _ (Keeps-call L t r _ (X.close_quiet w))
                              (Keeps-host _ _ (X.close _ w)))
                            λ _ s m. (k, i.target, name, rw file at found.1, m))

  pub save_images-Triple :
      (id : String) (w : Handle)
      → ¬ X.GoesIntoOne w
      → (images : List String) (l : List Export)
      → Triple
          (Made l)
          (save_images S (buildkit_context id) w images)
          (λ _ s. (es : List Export) × AreExports w images es × Made (l ++ es) s)
          (View L t r)
  unfolding save_images
  save_images-Triple id w aside [] l =
      Triple-pure tt (λ s h. ([], refl, (h.0, h.1 ∙ sym (append-nil l))))
  save_images-Triple id w aside (image ∷ images) l =
      Triple-bind (save_image-Triple id w aside l image) λ _. record {
        at = λ s (k, d, name, found, m).
            let e : Export = record { name = k; target = d; writer = w } in
            (Triple-weaken (save_images-Triple id w aside images (l ++ (e ∷ [])))
                (λ _ s' (es, are, m'). (
                  e ∷ es,
                  (k, d, es, name, found, refl, are),
                  (m'.0, m'.1 ∙ append_assoc l _ _),
                ))).at
              s m;
      }
