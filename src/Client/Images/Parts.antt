-- ===== src/Client/Images/Parts.antt =====
-- What the operations on images have in common keeps what `createWorkerOpt` keeps.
use img.Common.{String, Option, none, some, ◌≡◌, refl}
use img.Common.Triple.{Keeps, Triple-bind, Triple-pure, Triple-raise, Triple-or_fail}
use img.Services.{Services, Handle, WorkerOpt}
use img.Client.Worker.Keeps.{Pieces, OnHost, Keeps-lift, create_worker_opt-OnHost}
use img.Client.Images.{parse_name, worker_opt, checked_store}

module _ {W : Type 0} (S : Services W) (P : W → Type 0) where
  pub parse_name-OnHost : (image : String) → Keeps (OnHost P) (parse_name S image)
  unfolding parse_name
  parse_name-OnHost image =
      Triple-bind (Triple-or_fail _ (Keeps-lift P _)) λ p. Triple-pure _ (λ s c. c)

  pub worker_opt-OnHost : Pieces S P → Keeps (OnHost P) (worker_opt S)
  unfolding worker_opt
  worker_opt-OnHost K = Triple-or_fail _ (create_worker_opt-OnHost P K)

  at_field :
      (opt : WorkerOpt) (field : Option Handle)
      → opt.image_store ≡ field
      → Keeps (OnHost P) (checked_store S opt)
  unfolding checked_store
  at_field opt none e = rw e (Triple-raise _)
  at_field opt (some store) e = rw e (Triple-pure store (λ s c. c))

  pub checked_store-OnHost : (opt : WorkerOpt) → Keeps (OnHost P) (checked_store S opt)
  checked_store-OnHost opt = at_field opt opt.image_store refl
