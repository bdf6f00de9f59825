-- ===== src/Client/Worker/Opens.antt =====
-- `createWorkerOpt` and the image names: which file the store that it returns reads.
use img.Common.{String, Option, none, some, [], ◌∷◌, ◌≡◌, refl, ◌∙◌, ap, ◌==◌}
use img.Common.Exec.{Exec, ok, gets}
use img.Common.FilePath
use img.Common.Triple.{
  Triple, Keeps, keeps_all, Triple-bind, Triple-pure, Triple-raise, Triple-or_fail, Triple-given,
  Triple-if, Triple-modify, Keeps-gets,
}
use img.Services.{Services, Handle, WorkerOpt}
use img.Services.Laws.{Tags, IsLawful, IsQuiet}
use img.Backend.{native_backend, overlayfs_backend}
use img.Client.{State, call, manager_or_new, get_session_manager}
use img.Client.Calls.{call-Triple}
use img.Client.Worker.{create_snapshotter, open_metadata, create_worker_opt}

-- The metadata file below a client's root.
abbrev pub metadata_path : String → String
metadata_path root = FilePath.join (root ∷ "containerdmeta.db" ∷ [])

module _ {W : Type 0} {S : Services W} (L : IsLawful S) where
  -- The names are those of `t`, and the client works below `r`.
  abbrev pub View : Tags → String → State W → Type 0
  View t r s = (L.tags s.host ≡ t) × (s.client.root ≡ r)

  abbrev pub Reads : String → WorkerOpt → Type 0
  Reads path opt = (h : Handle) × (opt.image_store ≡ some h) × (L.file_of h ≡ path)

module _ {W : Type 0} {S : Services W} (L : IsLawful S) (t : Tags) (r : String) where
  pub Keeps-call : {A : Type 0} (m : Exec W A) → IsQuiet L.tags m → Keeps (View L t r) (call m)
  unfolding call
  Keeps-call m q = record {
    at = λ s h.
        keeps_all (View L t r) (m s.host).0 (record s { host = (m s.host).1 })
          (q s.host ∙ h.0, h.1);
  }

  manager_or_new-Keeps : (field : Option Handle) → Keeps (View L t r) (manager_or_new S field)
  unfolding manager_or_new
  manager_or_new-Keeps (some m) = Triple-pure m (λ s h. h)
  manager_or_new-Keeps none =
      Triple-bind (Keeps-call S.sessions.new_manager L.manager_quiet)
        (λ m. Triple-bind (Triple-modify _ (λ s h. h)) λ _. Triple-pure m (λ s h. h))

  pub get_session_manager-Keeps : Keeps (View L t r) (get_session_manager S)
  unfolding get_session_manager
  get_session_manager-Keeps = Triple-bind (Keeps-gets _) manager_or_new-Keeps

  pub create_snapshotter-Keeps :
      (backend root : String) → Keeps (View L t r) (create_snapshotter S backend root)
  unfolding create_snapshotter
  create_snapshotter-Keeps backend root =
      Triple-if (backend == native_backend) (Triple-or_fail _ (Keeps-call _ (L.native_quiet root)))
        (Triple-if (backend == overlayfs_backend)
          (Triple-or_fail _ (Keeps-call _ (L.overlay_quiet root))) (Triple-raise _))

  -- What a call returns satisfies what is known of every value that it can return.
  pub Triple-call :
      {A : Type 0} (m : Exec W A) (Fact : A → Type 0)
      → IsQuiet L.tags m
      → ((w : W) (a : A) → L.tags w ≡ t → (m w).0 ≡ ok a → Fact a)
      → Triple (View L t r) (call m) (λ a s. View L t r s × Fact a) (View L t r)
  Triple-call m Fact q f =
      call-Triple (View L t r) Fact m (λ s h. (q s.host ∙ h.0, h.1)) (λ s a h e. f s.host a h.0 e)

  Triple-root :
      Triple (View L t r) (gets (λ s. s.client.root)) (λ a s. View L t r s × (a ≡ r)) (View L t r)
  unfolding gets
  Triple-root = record { at = λ s h. (h, h.1) }

  open_metadata-Triple :
      (root backend : String) (content s : Handle)
      → Triple
          (View L t r)
          (open_metadata S root backend content s)
          (λ h st. View L t r st × (L.file_of h ≡ metadata_path root))
          (View L t r)
  unfolding open_metadata
  open_metadata-Triple root backend content s =
      Triple-bind
        (Triple-call (S.workers.open_bolt _ _ _) (λ db. L.file_of db ≡ metadata_path root)
          (L.bolt_quiet _ _ _) (λ w db _ e. L.file_of_bolt _ _ _ w db e))
        λ db. Triple-given λ e.
          Triple-bind (Keeps-call _ (L.init_quiet _))
            λ _. Triple-pure _ (λ st h. (h, L.file_of_db db content _ ∙ e))

  -- A worker's store reads the metadata file of the client that made it.
  pub create_worker_opt-Triple :
      Triple
        (View L t r)
        (create_worker_opt S)
        (λ opt s. View L t r s × Reads L (metadata_path r) opt)
        (View L t r)
  unfolding create_worker_opt
  create_worker_opt-Triple = Triple-bind get_session_manager-Keeps λ sm.
      Triple-bind Triple-root λ root. Triple-given λ here. Triple-bind (Keeps-gets _) λ backend.
        Triple-bind (Keeps-call _ (L.metadata_quiet _)) λ md.
          Triple-bind (Keeps-call _ L.euid_quiet) λ euid.
            Triple-bind (create_snapshotter-Keeps backend _) λ s.
              Triple-bind (Keeps-call _ (L.runc_quiet _ _)) λ exe.
                Triple-bind (Keeps-call _ (L.local_quiet _)) λ local.
                  Triple-bind (open_metadata-Triple root backend local s) λ mdb.
                    Triple-given λ file. Triple-bind (Keeps-call _ (L.id_quiet _)) λ id.
                      Triple-pure _ (λ st h. (
                        h,
                        (
                          S.workers.new_image_store mdb,
                          refl,
                          L.file_of_store mdb ∙ (file ∙ ap metadata_path here),
                        ),
                      ))
