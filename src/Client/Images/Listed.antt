-- ===== src/Client/Images/Listed.antt =====
-- `ListImages` against the images that the metadata database holds.
use mathlib.Core.List.{append-nil, append_assoc}
use img.Common.{
  String, true, false, some, List, [], ◌∷◌, ◌++◌, ◌≡◌, refl, sym, ◌∙◌, ap, map, Bool-cases, inl,
  inr,
}
use img.Common.Exec.{
  Outcome, ok, err, halt, panic, diverge, Kind, errorf, caused, foreign, gets, pure, attempt,
  reflect,
}
use img.Common.FilePath
use img.Common.Int.{ℤ}
use img.Common.Triple.{
  Triple, Post, Triple-bind, Triple-pure, Triple-or_fail, Triple-given, Triple-weaken,
}
use img.Services.{Services, Handle, Context, Image}
use img.Client.{State, call}
use img.Client.Calls.{call-Triple}
use img.Client.Worker.Keeps.{Preserves}
use img.Client.Worker.Opens.{metadata_path}
use img.Client.Images.{ListedImage}
use img.Client.Images.Listing.{is_not_exist, list_sizes, list_database, list_images}

-- A host of which `P` holds: `images` are those that the filters select in the namespace of BuildKit
-- from each metadata file, none where there is no such file, and `size_of` is the size of an image with
-- the content below each directory. A handle is known by the file or the directory that it was opened
-- with, so what is listed depends on the handles that are passed.
pub record Holds {W : Type 0} (S : Services W) (P : W → Type 0)
    (images : String → List String → List Image) (size_of : String → Image → ℤ) : Type 0 where
  pub stat_keeps : (path : String) → Preserves P (S.files.stat path)
  pub open_keeps : (path : String) → Preserves P (S.workers.open_bolt path 0o644 true)
  pub content_keeps : (path : String) → Preserves P (S.workers.new_local_store path)
  pub list_keeps :
      (h : Handle) (ctx : Context) (fs : List String) → Preserves P (S.images.list h ctx fs)
  pub size_keeps :
      (i : Image) (ctx : Context) (h : Handle) → Preserves P (S.images.image_size i ctx h)
  pub missing :
      (path : String) (w : W) (t : String) (fs : List String)
      → P w
      → (S.files.stat path w).0 ≡ err (foreign Kind.not_exist t)
      → images path fs ≡ []
  pub file_of : Handle → String
  pub file_of_bolt :
      (path : String) (w : W) (h : Handle)
      → (S.workers.open_bolt path 0o644 true w).0 ≡ ok h
      → file_of h ≡ path
  pub file_of_db :
      (h content : Handle) (ss : List (String × Handle))
      → file_of (S.workers.new_db h content ss) ≡ file_of h
  pub file_of_store : (h : Handle) → file_of (S.workers.new_image_store h) ≡ file_of h
  pub dir_of : Handle → String
  pub dir_of_local :
      (path : String) (w : W) (h : Handle)
      → (S.workers.new_local_store path w).0 ≡ ok h
      → dir_of h ≡ path
  pub selected :
      (store : Handle) (ctx : Context) (w : W) (fs : List String) (l : List Image)
      → P w
      → ctx.namespace ≡ some "buildkit"
      → (S.images.list store ctx fs w).0 ≡ ok l
      → l ≡ images (file_of store) fs
  pub sized :
      (i : Image) (ctx : Context) (h : Handle) (w : W) (v : ℤ)
      → P w
      → (S.images.image_size i ctx h w).0 ≡ ok v
      → v ≡ size_of (dir_of h) i

abbrev pub content_path : String → String
content_path root = FilePath.join (root ∷ "content" ∷ [])

abbrev pub entry : (Image → ℤ) → Image → ListedImage
entry size_of i = record { image = i; content_size = size_of i }

module _ {W : Type 0} {S : Services W} {P : W → Type 0} {images : String → List String → List Image}
    {size_of : String → Image → ℤ} (H : Holds S P images size_of) (root : String) (ctx : Context)
    (spaced : ctx.namespace ≡ some "buildkit") where
  abbrev pub Below : State W → Type 0
  Below s = P s.host × (s.client.root ≡ root)

  list_sizes-Triple :
      (content : Handle) (size : Image → ℤ)
      → size_of (H.dir_of content) ≡ size
      → (listed : List ListedImage) (is : List Image)
      → Triple Below
          (list_sizes S ctx content listed is)
          (λ l s. Below s × (l ≡ listed ++ map (entry size) is))
          Below
  unfolding list_sizes
  list_sizes-Triple content size same listed [] =
      Triple-pure listed (λ s h. (h, sym (append-nil listed)))
  list_sizes-Triple content size same listed (i ∷ is) =
      Triple-bind
        (Triple-or_fail _ (
          call-Triple Below (λ v. v ≡ size i) (S.images.image_size i ctx content)
            (λ s h. (H.size_keeps i ctx content s.host h.0, h.1))
            (λ s v h e. H.sized i ctx content s.host v h.0 e ∙ ap (λ f. f i) same)))
        λ v. Triple-given λ e.
          Triple-weaken (list_sizes-Triple content size same _ is) (λ l s (h, f). (
            h,
            f
                ∙ (append_assoc listed _ _
                    ∙ ap
                        (λ z.
                          listed ++ (record { image = i; content_size = z } ∷ map (entry size) is))
                        e),
          ))

  root-Triple :
      Triple Below (gets (λ (s : State W). s.client.root)) (λ r s. Below s × (r ≡ root)) Below
  unfolding gets
  root-Triple = record { at = λ s h. (h, h.1) }

  list_database-Triple :
      (fs : List String)
      → Triple Below
          (list_database S ctx fs (metadata_path root))
          (λ l s.
            Below s
            × (l ≡ map (entry (size_of (content_path root))) (images (metadata_path root) fs)))
          Below
  unfolding list_database
  list_database-Triple fs =
      Triple-bind
        (Triple-or_fail _ (
          call-Triple Below (λ db. H.file_of db ≡ metadata_path root) _
            (λ s h. (H.open_keeps _ s.host h.0, h.1)) (λ s db h e. H.file_of_bolt _ s.host db e)))
        λ db. Triple-given λ file. Triple-bind root-Triple λ r. Triple-given λ here. rw here (
          Triple-bind
            (Triple-or_fail _ (
              call-Triple Below (λ content. H.dir_of content ≡ content_path root) _
                (λ s h. (H.content_keeps _ s.host h.0, h.1))
                (λ s content h e. H.dir_of_local _ s.host content e)))
            λ content. Triple-given λ dir.
              Triple-bind
                (Triple-or_fail _ (
                  call-Triple Below (λ l. l ≡ images (metadata_path root) fs) _
                    (λ s h. (H.list_keeps _ ctx fs s.host h.0, h.1))
                    (λ s l h e.
                      H.selected _ ctx s.host fs l h.0 spaced e
                      ∙ ap (λ f. images f fs)
                          (H.file_of_store _ ∙ (H.file_of_db db content [] ∙ file)))))
                λ l. Triple-given λ e. rw e (
                  list_sizes-Triple content (size_of (content_path root)) (ap size_of dir) []
                    (images (metadata_path root) fs)))

  module _ (fs : List String) where
    stat-Post :
        (s : State W) (first : Outcome (Unit {0}))
        → Below s
        → ((t : String)
            → first ≡ err (foreign Kind.not_exist t)
            → images (metadata_path root) fs ≡ [])
        → (o : Outcome (Unit {0})) → first ≡ o
        → Post
            (λ o st. Below st × (is_not_exist o ≡ true → images (metadata_path root) fs ≡ []))
            Below
            (reflect o)
            s
    stat-Post s first h f (ok a) e = (h, λ x. cc)
    stat-Post s first h f (err (errorf a b)) e = (h, λ x. cc)
    stat-Post s first h f (err (caused a b c)) e = (h, λ x. cc)
    stat-Post s first h f (err (foreign Kind.not_exist t)) e = (h, λ x. f t e)
    stat-Post s first h f (err (foreign Kind.not_found t)) e = (h, λ x. cc)
    stat-Post s first h f (err (foreign Kind.eof t)) e = (h, λ x. cc)
    stat-Post s first h f (err (foreign Kind.no_child t)) e = (h, λ x. cc)
    stat-Post s first h f (err (foreign Kind.help_requested t)) e = (h, λ x. cc)
    stat-Post s first h f (err (foreign Kind.other t)) e = (h, λ x. cc)
    stat-Post s first h f (halt n) e = h
    stat-Post s first h f panic e = h
    stat-Post s first h f diverge e = h

    stat-Triple :
        Triple Below
          (attempt (call (S.files.stat (metadata_path root))))
          (λ o s. Below s × (is_not_exist o ≡ true → images (metadata_path root) fs ≡ []))
          Below
    unfolding attempt call
    stat-Triple = record {
      at = λ s h.
          stat-Post (record s { host = (S.files.stat (metadata_path root) s.host).1 })
            (S.files.stat (metadata_path root) s.host).0 (H.stat_keeps _ s.host h.0, h.1)
            (λ t e. H.missing _ s.host t fs h.0 e) (S.files.stat (metadata_path root) s.host).0
            refl;
    }

    found-Triple :
        (r : String)
        → r ≡ root
        → (o : Outcome (Unit {0})) → (is_not_exist o ≡ true → images (metadata_path root) fs ≡ [])
        → Triple Below
            (elim (is_not_exist o) [
              | true ↦ pure []
              | false ↦ list_database S ctx fs (metadata_path r)
            ])
            (λ l s.
              Below s
              × (l ≡ map (entry (size_of (content_path root))) (images (metadata_path root) fs)))
            Below
    found-Triple r here o empty = elim (Bool-cases (is_not_exist o)) [
      | inl e ↦ rw e (Triple-pure [] (λ s h. (h, rw (empty e) refl)))
      | inr e ↦ rw (e, here) (list_database-Triple fs)
    ]

    -- `ListImages` of a client that works below `root`: if it returns, the list holds the images that
    -- the database has for the filters, once each and in its order, each with its size, and is empty
    -- where there is no database; what is known of the host stays, also on every failure.
    pub list_images-Triple :
        Triple Below
          (list_images S ctx fs)
          (λ l s.
            Below s
            × (l ≡ map (entry (size_of (content_path root))) (images (metadata_path root) fs)))
          Below
    unfolding list_images
    list_images-Triple = Triple-bind root-Triple λ r. Triple-given λ here.
        Triple-bind (rw here stat-Triple) λ o. Triple-given λ empty. found-Triple r here o empty
