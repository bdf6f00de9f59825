-- ===== src/Client/Controller.antt =====
-- client/controller.go and client/diskusage.go: the controller is made once, on first use.
pub mod Opens
pub mod Silent
use img.Common.{String, Option, none, some, List, [], ◌∷◌}
use img.Common.Exec.{Exec, Outcome, caused, pure, ◌>>=◌, ◌>>◌, or_fail, gets, modify}
use img.Common.FilePath
use img.Services.{Services, Handle, Context, UsageRecord}
use img.Client.{State, call, lift, get_session_manager}
use img.Client.Worker.{create_worker_opt}

module _ {W : Type 0} (S : Services W) where
  open S.workers use {
    new_worker, add_worker, dockerfile_frontend, new_cache_storage, new_controller,
  }

  unfoldable pub create_controller : Exec (State W) (Unit {0})
  unfolding get_session_manager create_worker_opt
  create_controller = do
    sm ← or_fail (caused "creating session manager failed: %v" []) (get_session_manager S)
    opt ← or_fail (caused "creating worker opt failed: %v" []) (create_worker_opt S)
    w ← or_fail (caused "creating worker failed: %v" []) (call (new_worker opt))
    wc ←
        or_fail (caused "adding worker to worker controller failed: %v" []) (lift (add_worker [] w))
    root ← gets (λ s. s.client.root)
    cache ← call (new_cache_storage (FilePath.join (root ∷ "cache.db" ∷ [])))
    controller ← or_fail (caused "creating new controller failed: %v" []) (
        call (
          new_controller (record {
            session_manager = sm;
            worker_controller = wc;
            frontends = ("dockerfile.v0", dockerfile_frontend) ∷ [];
            cache_key_storage = cache;
          })))
    modify (λ s. record s { client = record s.client { controller = some controller } })

  -- `if c.controller == nil { … }`
  unfoldable pub controller_or_new : Option Handle → Exec (State W) (Unit {0})
  controller_or_new (some h) = pure tt
  controller_or_new none = create_controller

  unfoldable pub use_controller :
      {A : Type 0} → (Handle → Exec W A) → Option Handle → Exec (State W) A
  use_controller f none s = (Outcome.panic, s)
  use_controller f (some h) s = call (f h) s

  -- `DiskUsage`
  unfoldable pub disk_usage : Context → String → Exec (State W) (List UsageRecord)
  unfolding controller_or_new use_controller
  disk_usage ctx filter = do
    field ← gets (λ s. s.client.controller)
    controller_or_new field
    made ← gets (λ s. s.client.controller)
    or_fail (caused "getting disk usage failed: %v" [])
        (use_controller (λ h. S.workers.disk_usage h ctx filter) made)
