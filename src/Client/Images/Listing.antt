-- ===== src/Client/Images/Listing.antt =====
-- client/list.go: the metadata database is opened read-only, and each image is listed with its size.
use img.Common.{String, Bool, true, false, List, [], ◌∷◌, ◌++◌}
use img.Common.Exec.{Exec, Outcome, err, Kind, caused, foreign, pure, ◌>>=◌, attempt, or_fail, gets}
use img.Common.FilePath
use img.Services.{Services, Handle, Context, Image}
use img.Client.{State, call}
use img.Client.Images.{ListedImage}

-- `os.IsNotExist(err)`, false also where there is no error.
abbrev pub is_not_exist : {A : Type 0} → Outcome A → Bool
is_not_exist (err (foreign Kind.not_exist _)) = true
is_not_exist _ = false

module _ {W : Type 0} (S : Services W) where
  open S.workers use {open_bolt, new_local_store, new_db, new_image_store}

  -- The loop over the images, which appends to `listed`.
  unfoldable pub list_sizes :
      Context → Handle → List ListedImage → List Image → Exec (State W) (List ListedImage)
  list_sizes ctx content listed [] = pure listed
  list_sizes ctx content listed (image ∷ images) = do
    size ←
        or_fail (caused "calculating size of image %s failed: %v" (image.name ∷ []))
          (call (S.images.image_size image ctx content))
    list_sizes ctx content (listed ++ (record { image = image; content_size = size } ∷ [])) images

  -- The error of a failed `List` names the filters; the text joins them by commas.
  unfoldable pub list_database : Context → List String → String → Exec (State W) (List ListedImage)
  unfolding list_sizes
  list_database ctx filters path = do
    db ← or_fail (caused "opening boltdb failed: %v" []) (call (open_bolt path 0o644 true))
    root ← gets (λ s. s.client.root)
    content ←
        or_fail (caused "creating content store failed: %v" [])
          (call (new_local_store (FilePath.join (root ∷ "content" ∷ []))))
    let store = new_image_store (new_db db content [])
    images ←
        or_fail (caused "listing images with filters (%s) failed: %v" filters)
          (call (S.images.list store ctx filters))
    list_sizes ctx content [] images

  -- A state directory with no database lists no images.
  unfoldable pub list_images : Context → List String → Exec (State W) (List ListedImage)
  unfolding list_database
  list_images ctx filters = do
    root ← gets (λ s. s.client.root)
    let path = FilePath.join (root ∷ "containerdmeta.db" ∷ [])
    found ← attempt (call (S.files.stat path))
    elim (is_not_exist found) [ true ↦ pure [] | false ↦ list_database ctx filters path ]
