-- ===== src/Services/Up.antt =====
-- Services that answer: the calls that a command makes before it works on the image store return, with
-- a metadata file that opens below the client's directory.
use img.Common.{ℕ, String, Bool, false, [], ◌∷◌, ◌≡◌}
use img.Common.FilePath
use img.Common.Exec.{Exec, ok}
use img.Services.{Services, Handle}

abbrev pub Answers : {W A : Type 0} → Exec W A → Type 0
Answers {W} {A} m = (w : W) → (a : A) × ((m w).0 ≡ ok a)

pub record IsUp {W : Type 0} (S : Services W) (root : String) : Type 0 where
  pub getenv : (v : String) → Answers (S.processes.getenv v)
  pub new_id : Answers S.sessions.new_id
  pub mkdir : (p : String) (mode : ℕ) → Answers (S.files.mkdir_all p mode)
  pub manager : Answers S.sessions.new_manager
  pub metadata : (p : String) → Answers (S.workers.new_metadata_store p)
  pub euid : Answers S.workers.parent_euid
  pub native : (p : String) → Answers (S.workers.new_native_snapshotter p)
  pub overlay : (p : String) → Answers (S.workers.new_overlay_snapshotter p)
  pub runc : (p : String) (b : Bool) → Answers (S.workers.new_runc_executor p b)
  pub local : (p : String) → Answers (S.workers.new_local_store p)
  pub bolt :
      (mode : ℕ)
      → Answers (S.workers.open_bolt (FilePath.join (root ∷ "containerdmeta.db" ∷ [])) mode false)
  pub init : (h : Handle) → Answers (S.workers.init_db h)
  pub worker_id : (p : String) → Answers (S.workers.worker_id p)
