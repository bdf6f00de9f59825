-- ===== src/Services/Solving/Laws.antt =====
-- What the program relies on in BuildKit's worker, controller and image exporter, as it documents
-- them: a controller works on the image store of the one worker that it is given, and a solve that
-- exports an image under a name leaves the name in that store.
use img.Common.{String, some, List, [], ◌∷◌, ◌≡◌, ◌⊎◌}
use img.Common.Exec.{ok}
use img.Services.{Services, Handle, Context, Descriptor, WorkerOpt, ControlOpt}
use img.Services.Laws.{put_tag, IsLawful, IsQuiet}
use img.Services.Progress.{SolveStatus}
use img.Services.Solving.{SolveRequest, Solving}
use img.Build.{lookup}

pub record IsSolving {W : Type 0} {S : Services W} (L : IsLawful S) (T : Solving W) : Type 0 where
  -- The metadata file in which a worker, and a controller, keeps its images.
  pub worker_file : Handle → String
  pub controller_file : Handle → String
  pub made_worker :
      (opt : WorkerOpt) (store h : Handle) (w : W)
      → opt.image_store ≡ some store
      → (S.workers.new_worker opt w).0 ≡ ok h
      → worker_file h ≡ L.file_of store
  pub added : (h : Handle) (wc : List Handle) → S.workers.add_worker [] h ≡ ok wc → wc ≡ h ∷ []
  pub made_controller :
      (o : ControlOpt) (h c : Handle) (w : W)
      → o.worker_controller ≡ h ∷ []
      → (S.workers.new_controller o w).0 ≡ ok c
      → controller_file c ≡ worker_file h
  -- A solve that returns has exported the image; one that fails may have done so before it failed.
  pub exported :
      (c : Handle) (ctx : Context) (n k : String) (req : SolveRequest) (w : W)
      → ctx.namespace ≡ some n
      → req.exporter ≡ "image"
      → lookup "name" req.exporter_attrs ≡ some k
      → (T.solve c ctx req w).0 ≡ ok tt
      → (d : Descriptor) × (L.tags (T.solve c ctx req w).1
          ≡ put_tag (L.tags w) (controller_file c) n k (some d))
  pub exports_at_most :
      (c : Handle) (ctx : Context) (n k : String) (req : SolveRequest) (w : W)
      → ctx.namespace ≡ some n
      → req.exporter ≡ "image"
      → lookup "name" req.exporter_attrs ≡ some k
      → (L.tags (T.solve c ctx req w).1 ≡ L.tags w)
        ⊎ ((d : Descriptor) × (L.tags (T.solve c ctx req w).1
              ≡ put_tag (L.tags w) (controller_file c) n k (some d)))
  pub status_quiet : (c : Handle) (ref : String) → IsQuiet L.tags (T.status c ref)
  pub console_quiet : IsQuiet L.tags T.console
  pub display_quiet :
      (c : Handle) (statuses : List SolveStatus) → IsQuiet L.tags (T.display c statuses)
  pub worker_quiet : (opt : WorkerOpt) → IsQuiet L.tags (S.workers.new_worker opt)
  pub cache_quiet : (p : String) → IsQuiet L.tags (S.workers.new_cache_storage p)
  pub controller_quiet : (o : ControlOpt) → IsQuiet L.tags (S.workers.new_controller o)
