-- ===== src/Client/Images.antt =====
-- client/tag.go, remove.go, push.go, pull.go and save.go: the operations on the image store.
pub mod Listing
pub mod Parts
pub mod Upsert
pub mod Tagging
pub mod Pulling
pub mod Pushing
pub mod Listed
pub mod Total
use img.Common.{ℕ, String, Bool, true, false, Option, none, some, List, [], ◌∷◌}
use img.Common.Int.{ℤ}
use img.Common.Exec.{
  Exec, Outcome, ok, err, halt, panic, diverge, Error, Kind, errorf, caused, foreign, pure, raise,
  ◌>>=◌, ◌>>◌, attempt, or_fail,
}
use img.Services.{Services, Handle, Context, Descriptor, Image, WorkerOpt}
use img.Client.{State, call, lift}
use img.Client.Worker.{create_worker_opt}

-- `errdefs.IsNotFound`
abbrev pub is_not_found : Error → Bool
is_not_found (foreign Kind.not_found _) = true
is_not_found _ = false

-- `ListedImage` of list.go
pub record ListedImage : Type 0 where
  pub image : Image
  pub content_size : ℤ

-- A new image record, as `TagImage` and `Pull` write it: the other fields are zero.
abbrev pub new_image : String → Descriptor → ℕ → Image
new_image name target now = record {
  name = name;
  labels = [];
  target = target;
  created_at = now;
  updated_at = 0;
}

module _ {W : Type 0} (S : Services W) where
  open S.references use {parse_normalized_named, tag_name_only, new_image_identifier}

  -- The first lines of each operation: the parsed name, with the tag `latest` if it has none.
  unfoldable pub parse_name : String → Exec (State W) String
  parse_name image = do
    named ←
        or_fail (caused "parsing image name %q failed: %v" (image ∷ []))
          (lift (parse_normalized_named image))
    pure (tag_name_only named)

  unfoldable pub worker_opt : Exec (State W) WorkerOpt
  worker_opt = or_fail (caused "creating worker opt failed: %v" []) (create_worker_opt S)

  -- `if opt.ImageStore == nil`
  unfoldable pub checked_store : WorkerOpt → Exec (State W) Handle
  checked_store opt = elim opt.image_store [
    | none ↦ raise (errorf "image store is nil" [])
    | some h ↦ pure h
  ]

  -- A use of `opt.ImageStore` with no such test: a method call on a nil interface panics.
  unfoldable pub unchecked_store : WorkerOpt → Exec (State W) Handle
  unchecked_store opt = elim opt.image_store [ none ↦ lift panic | some h ↦ pure h ]

  -- "Create it if we didn't find it."
  unfoldable pub create_if_missing :
      Handle → Context → Image → Outcome Image → Exec (State W) (Unit {0})
  create_if_missing h ctx img (ok _) = pure tt
  create_if_missing h ctx img (halt n) = lift (halt n)
  create_if_missing h ctx img panic = lift panic
  create_if_missing h ctx img diverge = lift diverge
  create_if_missing h ctx img (err e) = elim (is_not_found e) [
    | false ↦ raise (caused "updating image store for %s failed: %v" (img.name ∷ []) e)
    | true ↦ do
      or_fail (caused "creating image in image store for %s failed: %v" (img.name ∷ []))
          (call (S.images.create h ctx img))
      pure tt
  ]

  -- "Update the target image. Create it if it does not exist.", in `TagImage` and in `Pull`.
  unfoldable pub update_or_create : Handle → Context → Image → Exec (State W) (Unit {0})
  unfolding create_if_missing
  update_or_create h ctx img = do
    updated ← attempt (call (S.images.update h ctx img))
    create_if_missing h ctx img updated

  unfoldable pub tag_image : Context → String → String → Exec (State W) (Unit {0})
  unfolding parse_name worker_opt checked_store update_or_create
  tag_image ctx src dest = do
    src' ← parse_name src
    dest' ← parse_name dest
    opt ← worker_opt
    h ← checked_store opt
    image ←
        or_fail (caused "getting image %s from image store failed: %v" (src' ∷ []))
          (call (S.images.get h ctx src'))
    now ← call S.files.now
    update_or_create h ctx (new_image dest' image.target now)

  unfoldable pub remove_image : Context → String → Exec (State W) (Unit {0})
  unfolding parse_name worker_opt unchecked_store
  remove_image ctx image = do
    image' ← parse_name image
    opt ← worker_opt
    h ← unchecked_store opt
    or_fail (caused "removing image failed: %v" []) (call (S.images.delete h ctx image' true))

  unfoldable pub push : Context → String → Bool → Exec (State W) (Unit {0})
  unfolding parse_name worker_opt unchecked_store
  push ctx image insecure = do
    image' ← parse_name image
    opt ← worker_opt
    h ← unchecked_store opt
    found ←
        or_fail (caused "getting image %q failed: %v" (image' ∷ []))
          (call (S.images.get h ctx image'))
    let digest = found.target.digest
    call (S.images.push ctx opt.session_manager opt.content_store digest image' insecure)

  unfoldable pub pull : Context → String → Exec (State W) ListedImage
  unfolding parse_name worker_opt unchecked_store update_or_create
  pull ctx image = do
    image' ← parse_name image
    src ← lift (new_image_identifier image')
    opt ← worker_opt
    target ← call (
        S.images.pull
          (record {
            snapshotter = opt.snapshotter;
            content_store = opt.content_store;
            applier = opt.applier;
            src = src;
            resolver = S.images.new_resolver ctx opt.session_manager opt.image_store;
          })
          ctx)
    now ← call S.files.now
    h ← unchecked_store opt
    update_or_create h ctx (new_image image' target now)
    size ←
        or_fail (caused "calculating size of image %s failed: %v" (image' ∷ []))
          (call (S.images.image_size (new_image image' target now) ctx opt.content_store))
    pure (record { image = new_image image' target now; content_size = size })

  -- The writer is closed after a successful export, and only then.
  unfoldable pub save_image : Context → String → Handle → Exec (State W) (Unit {0})
  unfolding parse_name worker_opt checked_store
  save_image ctx image writer = do
    image' ← parse_name image
    opt ← worker_opt
    h ← checked_store opt
    found ←
        or_fail (caused "getting image %s from image store failed: %v" (image' ∷ []))
          (call (S.images.get h ctx image'))
    or_fail (caused "exporting image %s failed: %v" (image' ∷ []))
        (call (S.images.export ctx found.name opt.content_store found.target writer))
    call (S.files.close writer)
