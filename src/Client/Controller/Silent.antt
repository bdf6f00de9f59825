-- ===== src/Client/Controller/Silent.antt =====
-- The controller and `DiskUsage` print nothing, and the records that come back are the controller's.
use img.Common.{String, Option, none, some, List, ◌==◌, ◌≡◌}
use img.Common.Exec.{Outcome, ok}
use img.Common.Output.{Line}
use img.Common.Triple.{
  Triple, Keeps, keeps_all, Triple-bind, Triple-pure, Triple-raise, Triple-or_fail, Triple-if,
  Triple-modify, Triple-at, Keeps-gets,
}
use img.Services.{Services, Handle, Context, UsageRecord}
use img.Backend.{native_backend, overlayfs_backend}
use img.Client.{call, lift, manager_or_new, get_session_manager}
use img.Client.Controller.{create_controller, controller_or_new, use_controller, disk_usage}
use img.Client.Silent.{Said, Silent-call}
use img.Client.Worker.{create_snapshotter, open_metadata, create_worker_opt}

module _ {W : Type 0} (S : Services W) (before : List Line) where
  Silent-lift : {A : Type 0} (o : Outcome A) → Keeps (Said {W = W} before) (lift o)
  unfolding lift
  Silent-lift o = record { at = λ s h. keeps_all (Said before) o s h }

  manager_or_new-Silent : (field : Option Handle) → Keeps (Said before) (manager_or_new S field)
  unfolding manager_or_new
  manager_or_new-Silent (some m) = Triple-pure m (λ s h. h)
  manager_or_new-Silent none =
      Triple-bind (Silent-call before _)
        λ m. Triple-bind (Triple-modify _ (λ s h. h)) λ _. Triple-pure m (λ s h. h)

  get_session_manager-Silent : Keeps (Said before) (get_session_manager S)
  unfolding get_session_manager
  get_session_manager-Silent = Triple-bind (Keeps-gets _) manager_or_new-Silent

  create_snapshotter-Silent :
      (backend root : String) → Keeps (Said before) (create_snapshotter S backend root)
  unfolding create_snapshotter
  create_snapshotter-Silent backend root =
      Triple-if (backend == native_backend) (Triple-or_fail _ (Silent-call before _)) (
        Triple-if (backend == overlayfs_backend) (Triple-or_fail _ (Silent-call before _))
          (Triple-raise _))

  open_metadata-Silent :
      (root backend : String) (content s : Handle)
      → Keeps (Said before) (open_metadata S root backend content s)
  unfolding open_metadata
  open_metadata-Silent root backend content s =
      Triple-bind (Silent-call before _)
        λ db. Triple-bind (Silent-call before _) λ _. Triple-pure _ (λ st h. h)

  create_worker_opt-Silent : Keeps (Said before) (create_worker_opt S)
  unfolding create_worker_opt
  create_worker_opt-Silent = Triple-bind get_session_manager-Silent λ sm.
      Triple-bind (Keeps-gets _) λ root. Triple-bind (Keeps-gets _) λ backend.
        Triple-bind (Silent-call before _) λ md. Triple-bind (Silent-call before _) λ euid.
          Triple-bind (create_snapshotter-Silent backend _) λ s.
            Triple-bind (Silent-call before _) λ exe. Triple-bind (Silent-call before _) λ local.
              Triple-bind (open_metadata-Silent root backend local s)
                λ mdb. Triple-bind (Silent-call before _) λ id. Triple-pure _ (λ st h. h)

  create_controller-Silent : Keeps (Said before) (create_controller S)
  unfolding create_controller
  create_controller-Silent = Triple-bind (Triple-or_fail _ get_session_manager-Silent) λ sm.
      Triple-bind (Triple-or_fail _ create_worker_opt-Silent) λ opt.
        Triple-bind (Triple-or_fail _ (Silent-call before _)) λ w.
          Triple-bind (Triple-or_fail _ (Silent-lift _)) λ wc. Triple-bind (Keeps-gets _) λ root.
            Triple-bind (Silent-call before _) λ cache.
              Triple-bind (Triple-or_fail _ (Silent-call before _)) λ c. Triple-modify _ (λ s h. h)

  controller_or_new-Silent :
      (field : Option Handle) → Keeps (Said before) (controller_or_new S field)
  unfolding controller_or_new
  controller_or_new-Silent (some h) = Triple-pure tt (λ s h. h)
  controller_or_new-Silent none = create_controller-Silent

-- Every controller answers a filter with the same records.
abbrev pub Answers : {W : Type 0} → Services W → String → List UsageRecord → Type 0
Answers {W} S filter du =
    (h : Handle) (ctx : Context) (w : W) (l : List UsageRecord)
    → (S.workers.disk_usage h ctx filter w).0 ≡ ok l
    → l ≡ du

module _ {W : Type 0} (S : Services W) (before : List Line) (ctx : Context) (filter : String)
    (du : List UsageRecord) (answers : Answers S filter du) where
  use_controller-Answers :
      (made : Option Handle)
      → Triple
          (Said before)
          (use_controller S (λ h. S.workers.disk_usage h ctx filter) made)
          (λ l s. Said before s × (l ≡ du))
          (Said before)
  unfolding use_controller call
  use_controller-Answers none = record { at = λ s h. h }
  use_controller-Answers (some h) =
      Triple-at _ (λ s said l e. (said, answers h ctx s.host l e)) (λ s said. said)

  pub disk_usage-Answers :
      Triple (Said before) (disk_usage S ctx filter) (λ l s. Said before s × (l ≡ du)) (Said before)
  unfolding disk_usage
  disk_usage-Answers = Triple-bind (Keeps-gets _) λ field.
      Triple-bind (controller_or_new-Silent S before field)
        λ _. Triple-bind (Keeps-gets _) λ made. Triple-or_fail _ (use_controller-Answers made)
