-- ===== src/Services/Laws.antt =====
-- What the program relies on in the services, as containerd documents its image store: within one
-- metadata file and one namespace a name refers to one target; `Update` of a missing name and `Get`
-- of it answer not-found; the other calls leave the names alone.
use Prim.Native.String.{String}
use img.Common.{ℕ, Bool, true, Option, none, some, List, ◌≡◌, ◌==◌, ◌&&◌, if◌then◌else◌}
use img.Common.Exec.{Exec, ok, err, Kind, foreign}
use img.Services.{Services, Handle, Context, Descriptor, Image, Puller}

-- The targets by metadata file, namespace and name.
abbrev pub Tags : Type 0
Tags = String → String → String → Option Descriptor

abbrev pub same_key : String → String → String → String → String → String → Bool
same_key f n k f' n' k' = f == f' && (n == n' && k == k')

abbrev pub put_tag : Tags → String → String → String → Option Descriptor → Tags
put_tag t f n k d f' n' k' = if same_key f n k f' n' k' then d else t f' n' k'

-- A call that leaves the names alone, whatever it returns.
abbrev pub IsQuiet : {W A : Type 0} → (W → Tags) → Exec W A → Type 0
IsQuiet {W = W} tags m = (w : W) → tags (m w).1 ≡ tags w

pub record IsLawful {W : Type 0} (S : Services W) : Type 0 where
  pub tags : W → Tags
  -- The metadata file below a store's or a database's handle.
  pub file_of : Handle → String
  pub file_of_bolt :
      (path : String) (mode : ℕ) (read_only : Bool) (w : W) (h : Handle)
      → (S.workers.open_bolt path mode read_only w).0 ≡ ok h
      → file_of h ≡ path
  pub file_of_db :
      (h content : Handle) (ss : List (String × Handle))
      → file_of (S.workers.new_db h content ss) ≡ file_of h
  pub file_of_store : (h : Handle) → file_of (S.workers.new_image_store h) ≡ file_of h
  -- The image store.
  pub get_found :
      (h : Handle) (ctx : Context) (n k : String) (d : Descriptor) (w : W)
      → ctx.namespace ≡ some n
      → tags w (file_of h) n k ≡ some d
      → (i : Image) × ((S.images.get h ctx k w).0 ≡ ok i) × (i.name ≡ k) × (i.target ≡ d)
  pub get_missing :
      (h : Handle) (ctx : Context) (n k : String) (w : W)
      → ctx.namespace ≡ some n
      → tags w (file_of h) n k ≡ none
      → (t : String) × ((S.images.get h ctx k w).0 ≡ err (foreign Kind.not_found t))
  pub get_quiet : (h : Handle) (ctx : Context) (k : String) → IsQuiet tags (S.images.get h ctx k)
  pub update_found :
      (h : Handle) (ctx : Context) (n : String) (i : Image) (d : Descriptor) (w : W)
      → ctx.namespace ≡ some n
      → tags w (file_of h) n i.name ≡ some d
      → (j : Image) × ((S.images.update h ctx i w).0 ≡ ok j)
        × (tags (S.images.update h ctx i w).1
            ≡ put_tag (tags w) (file_of h) n i.name (some i.target))
  pub update_missing :
      (h : Handle) (ctx : Context) (n : String) (i : Image) (w : W)
      → ctx.namespace ≡ some n
      → tags w (file_of h) n i.name ≡ none
      → (t : String) × ((S.images.update h ctx i w).0 ≡ err (foreign Kind.not_found t))
        × (tags (S.images.update h ctx i w).1 ≡ tags w)
  pub create_missing :
      (h : Handle) (ctx : Context) (n : String) (i : Image) (w : W)
      → ctx.namespace ≡ some n
      → tags w (file_of h) n i.name ≡ none
      → (j : Image) × ((S.images.create h ctx i w).0 ≡ ok j)
        × (tags (S.images.create h ctx i w).1
            ≡ put_tag (tags w) (file_of h) n i.name (some i.target))
  pub delete_found :
      (h : Handle) (ctx : Context) (n k : String) (d : Descriptor) (w : W)
      → ctx.namespace ≡ some n
      → tags w (file_of h) n k ≡ some d
      → ((S.images.delete h ctx k true w).0 ≡ ok tt)
        × (tags (S.images.delete h ctx k true w).1 ≡ put_tag (tags w) (file_of h) n k none)
  pub delete_missing :
      (h : Handle) (ctx : Context) (n k : String) (w : W)
      → ctx.namespace ≡ some n
      → tags w (file_of h) n k ≡ none
      → (t : String) × ((S.images.delete h ctx k true w).0 ≡ err (foreign Kind.not_found t))
        × (tags (S.images.delete h ctx k true w).1 ≡ tags w)
  -- The calls that leave the names alone.
  pub getenv_quiet : (v : String) → IsQuiet tags (S.processes.getenv v)
  pub new_id_quiet : IsQuiet tags S.sessions.new_id
  pub new_session_quiet :
      (ctx : Context) (name key : String) → IsQuiet tags (S.sessions.new_session ctx name key)
  pub allow_sync_quiet :
      (h : Handle) (dirs : List (String × String)) → IsQuiet tags (S.sessions.allow_sync h dirs)
  pub allow_auth_quiet : (h : Handle) → IsQuiet tags (S.sessions.allow_auth h)
  pub run_quiet : (h : Handle) (ctx : Context) (d : Handle) → IsQuiet tags (S.sessions.run h ctx d)
  pub close_quiet : (h : Handle) → IsQuiet tags (S.sessions.close h)
  pub mkdir_quiet : (p : String) (mode : ℕ) → IsQuiet tags (S.files.mkdir_all p mode)
  pub supported_quiet : (p : String) → IsQuiet tags (S.workers.overlay_supported p)
  pub manager_quiet : IsQuiet tags S.sessions.new_manager
  pub metadata_quiet : (p : String) → IsQuiet tags (S.workers.new_metadata_store p)
  pub euid_quiet : IsQuiet tags S.workers.parent_euid
  pub native_quiet : (p : String) → IsQuiet tags (S.workers.new_native_snapshotter p)
  pub overlay_quiet : (p : String) → IsQuiet tags (S.workers.new_overlay_snapshotter p)
  pub runc_quiet : (p : String) (b : Bool) → IsQuiet tags (S.workers.new_runc_executor p b)
  pub local_quiet : (p : String) → IsQuiet tags (S.workers.new_local_store p)
  pub bolt_quiet : (p : String) (m : ℕ) (b : Bool) → IsQuiet tags (S.workers.open_bolt p m b)
  pub init_quiet : (h : Handle) → IsQuiet tags (S.workers.init_db h)
  pub id_quiet : (p : String) → IsQuiet tags (S.workers.worker_id p)
  pub now_returns : (w : W) → (time : ℕ) × ((S.files.now w).0 ≡ ok time)
  pub now_quiet : IsQuiet tags S.files.now
  pub push_quiet :
      (ctx : Context) (manager content : Handle) (digest name : String) (insecure : Bool)
      → IsQuiet tags (S.images.push ctx manager content digest name insecure)
  pub pull_quiet : (p : Puller) (ctx : Context) → IsQuiet tags (S.images.pull p ctx)
  pub size_quiet :
      (i : Image) (ctx : Context) (h : Handle) → IsQuiet tags (S.images.image_size i ctx h)
