-- ===== src/Client/Worker.antt =====
-- client/workeropt.go: `createWorkerOpt` puts the pieces of a worker together.
pub mod Opens
pub mod Keeps
pub mod Up
use img.Common.{String, false, some, [], ◌∷◌, not, ◌==◌, if◌then◌else◌}
use img.Common.Exec.{Exec, errorf, caused, pure, raise, ◌>>=◌, ◌>>◌, attempt, or_fail, gets}
use img.Common.FilePath
use img.Common.Text.{same_code}
use img.Services.{Services, Handle, Context, WorkerOpt}
use img.Backend.{native_backend, overlayfs_backend}
use img.Client.{State, call, get_session_manager}

module _ {W : Type 0} (S : Services W) where
  open S.workers use {
    new_metadata_store, parent_euid, new_native_snapshotter, new_overlay_snapshotter,
    new_runc_executor, new_local_store, open_bolt, new_db, init_db, collect_garbage, throttle,
    db_content_store, db_snapshotter, new_image_store, new_content_store, new_snapshotter,
    new_applier, new_differ, worker_id, labels,
  }

  -- The `switch` on the backend. `auto` has no case: `New` has resolved it.
  unfoldable pub create_snapshotter : String → String → Exec (State W) Handle
  create_snapshotter backend snapshot_root =
      if backend == native_backend
      then or_fail (caused "creating %s snapshotter failed: %v" (backend ∷ []))
          (call (new_native_snapshotter snapshot_root))
      else if backend == overlayfs_backend
      then or_fail (caused "creating %s snapshotter failed: %v" (backend ∷ []))
          (call (new_overlay_snapshotter snapshot_root))
      else raise (errorf "%s is not a valid snapshots backend" (backend ∷ []))

  -- The garbage collector that the stores are handed: its error is logged, and it returns nil.
  unfoldable pub garbage_collector : Handle → Context → Exec W (Unit {0})
  garbage_collector mdb ctx = do
    throttle 1_000_000_000 (do _ ← attempt (collect_garbage mdb); pure tt)
    pure tt

  -- The metadata database with its stores, of the second half of the function.
  unfoldable pub open_metadata : String → String → Handle → Handle → Exec (State W) Handle
  open_metadata root backend content snapshotter = do
    db ← call (open_bolt (FilePath.join (root ∷ "containerdmeta.db" ∷ [])) 0o644 false)
    let mdb = new_db db content ((backend, snapshotter) ∷ [])
    call (init_db mdb)
    pure mdb

  unfoldable pub create_worker_opt : Exec (State W) WorkerOpt
  unfolding get_session_manager create_snapshotter open_metadata garbage_collector
  create_worker_opt = do
    sm ← get_session_manager S
    root ← gets (λ s. s.client.root)
    backend ← gets (λ s. s.client.backend)
    md ← call (new_metadata_store (FilePath.join (root ∷ "metadata.db" ∷ [])))
    euid ← call parent_euid
    s ← create_snapshotter backend (FilePath.join (root ∷ "snapshots" ∷ []))
    exe ← call (new_runc_executor (FilePath.join (root ∷ "executor" ∷ [])) (not (same_code euid 0)))
    local ← call (new_local_store (FilePath.join (root ∷ "content" ∷ [])))
    mdb ← open_metadata root backend local s
    let gc = garbage_collector mdb
    let content = new_content_store (db_content_store mdb) "buildkit" gc
    id ← call (worker_id root)
    pure (record {
      id = id;
      labels = labels "oci" backend;
      session_manager = sm;
      metadata_store = md;
      executor = exe;
      snapshotter = new_snapshotter (db_snapshotter mdb backend) content md "buildkit" gc;
      content_store = content;
      applier = new_applier content;
      differ = new_differ content;
      image_store = some (new_image_store mdb);
    })
