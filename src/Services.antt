-- ===== src/Services.antt =====
-- What the program calls and does not implement: BuildKit, containerd, bolt, runc, the docker
-- reference grammar, and the operating system below Go's `os`. A value of `Services W` is one such
-- environment over the states `W` of the host. Objects that foreign code returns and the program
-- only hands on are numbers (`Handle`). Constructors of foreign code that only wrap their arguments
-- are functions; calls that read or change the host are `Exec W`.

pub mod Laws
pub mod Accounts
pub mod Progress
pub mod Solving
pub mod Scratch
pub mod Up
use img.Common.{ℕ, String, Bool, Option, List}
use img.Common.Exec.{Exec, Outcome, Error}
use img.Common.Int.{ℤ}

abbrev pub Handle : Type 0
Handle = ℕ

-- The parts of a `context.Context` that the program sets.
pub record Context : Type 0 where
  pub namespace : Option String
  pub session : Option String

pub record Descriptor : Type 0 where
  pub media_type : String
  pub digest : String
  pub size : ℤ

-- `images.Image`; times are nanoseconds.
pub record Image : Type 0 where
  pub name : String
  pub labels : List (String × String)
  pub target : Descriptor
  pub created_at : ℕ
  pub updated_at : ℕ

-- `controlapi.UsageRecord`; a description is its bytes.
pub record UsageRecord : Type 0 where
  pub id : String
  pub is_mutable : Bool
  pub in_use : Bool
  pub size : ℤ
  pub parent : String
  pub created_at : String
  pub last_used_at : Option String
  pub usage_count : ℤ
  pub description : List ℕ

-- `base.WorkerOpt`. Only the image store is compared with nil.
pub record WorkerOpt : Type 0 where
  pub id : String
  pub labels : List (String × String)
  pub session_manager : Handle
  pub metadata_store : Handle
  pub executor : Handle
  pub snapshotter : Handle
  pub content_store : Handle
  pub applier : Handle
  pub differ : Handle
  pub image_store : Option Handle

-- `control.Opt`
pub record ControlOpt : Type 0 where
  pub session_manager : Handle
  pub worker_controller : List Handle
  pub frontends : List (String × Handle)
  pub cache_key_storage : Handle

-- `pull.Puller`
pub record Puller : Type 0 where
  pub snapshotter : Handle
  pub content_store : Handle
  pub applier : Handle
  pub src : Handle
  pub resolver : Handle

-- docker/distribution/reference. A parsed name is known by the text that its `String` method gives.
pub record References : Type 0 where
  pub parse_normalized_named : String → Outcome String
  pub tag_name_only : String → String
  pub new_image_identifier : String → Outcome Handle

-- `os` and the snapshotters' probe of the kernel.
pub record Files (W : Type 0) : Type 0 where
  pub mkdir_all : String → ℕ → Exec W (Unit {0})
  pub stat : String → Exec W (Unit {0})
  pub create : String → Exec W Handle
  pub close : Handle → Exec W (Unit {0})
  pub stdout : Handle
  pub stdout_is_terminal : Exec W Bool
  pub remove_all : String → Exec W (Unit {0})
  pub now : Exec W ℕ

-- moby/buildkit/session. `run` serves the session until it is closed.
pub record Sessions (W : Type 0) : Type 0 where
  pub new_id : Exec W String
  pub new_manager : Exec W Handle
  pub new_session : Context → String → String → Exec W Handle
  pub allow_sync : Handle → List (String × String) → Exec W (Unit {0})
  pub allow_auth : Handle → Exec W (Unit {0})
  pub id : Handle → String
  pub dialer : Handle → Handle → Handle
  pub run : Handle → Context → Handle → Exec W (Unit {0})
  pub close : Handle → Exec W (Unit {0})

-- The pieces of which a worker is put together.
pub record Workers (W : Type 0) : Type 0 where
  pub overlay_supported : String → Exec W (Unit {0})
  pub new_metadata_store : String → Exec W Handle
  pub parent_euid : Exec W ℕ
  pub new_native_snapshotter : String → Exec W Handle
  pub new_overlay_snapshotter : String → Exec W Handle
  pub new_runc_executor : String → Bool → Exec W Handle
  pub new_local_store : String → Exec W Handle
  pub open_bolt : String → ℕ → Bool → Exec W Handle
  pub new_db : Handle → Handle → List (String × Handle) → Handle
  pub init_db : Handle → Exec W (Unit {0})
  pub collect_garbage : Handle → Exec W (Unit {0})
  pub throttle : ℕ → Exec W (Unit {0}) → Exec W (Unit {0})
  pub db_content_store : Handle → Handle
  pub db_snapshotter : Handle → String → Handle
  pub new_image_store : Handle → Handle
  pub new_content_store : Handle → String → (Context → Exec W (Unit {0})) → Handle
  pub new_snapshotter : Handle → Handle → Handle → String → (Context → Exec W (Unit {0})) → Handle
  pub new_applier : Handle → Handle
  pub new_differ : Handle → Handle
  pub worker_id : String → Exec W String
  pub labels : String → String → List (String × String)
  pub new_worker : WorkerOpt → Exec W Handle
  pub add_worker : List Handle → Handle → Outcome (List Handle)
  pub dockerfile_frontend : Handle
  pub new_cache_storage : String → Exec W Handle
  pub new_controller : ControlOpt → Exec W Handle
  pub disk_usage : Handle → Context → String → Exec W (List UsageRecord)

-- containerd's image store, and the registry traffic and export that read it.
pub record Images (W : Type 0) : Type 0 where
  pub get : Handle → Context → String → Exec W Image
  pub update : Handle → Context → Image → Exec W Image
  pub create : Handle → Context → Image → Exec W Image
  pub delete : Handle → Context → String → Bool → Exec W (Unit {0})
  pub list : Handle → Context → List String → Exec W (List Image)
  pub image_size : Image → Context → Handle → Exec W ℤ
  pub new_resolver : Context → Handle → Option Handle → Handle
  pub pull : Puller → Context → Exec W Descriptor
  pub push : Context → Handle → Handle → String → String → Bool → Exec W (Unit {0})
  pub export : Context → String → Handle → Descriptor → Handle → Exec W (Unit {0})

-- The environment, processes and signals of this process, and `runc` on its path.
pub record Processes (W : Type 0) : Type 0 where
  pub getenv : String → Exec W String
  pub setenv : String → String → Exec W (Unit {0})
  -- `/proc/self/exe` with these arguments and one more variable, in a process group of its own.
  pub start_self : List String → String → Exec W ℕ
  pub getpgid : ℕ → Exec W ℕ
  pub kill_group : ℕ → Exec W (Unit {0})
  -- `syscall.Wait4(-pgid, &ws, WNOHANG, nil)`: the status that it writes, 0 if no child has changed.
  pub wait_group : ℕ → Exec W ℕ
  pub look_path : String → Exec W String
  pub runc_version : Exec W (Unit {0})
  pub asset : String → Outcome String
  pub temp_dir : String → Exec W String
  pub write_file : String → String → ℕ → Exec W (Unit {0})

-- `tar.Header`
pub record TarHeader : Type 0 where
  pub name : String
  pub typeflag : ℕ
  pub mode : ℤ

-- The standard input, temporary files and archives. The formats themselves, and the path join of
-- cyphar/filepath-securejoin, are not the program's.
pub record Inputs (W : Type 0) : Type 0 where
  pub read_stdin : Exec W String
  -- `ioutil.TempFile("", prefix)`: the handle and the name.
  pub temp_file : String → Exec W (Handle × String)
  pub write : Handle → String → Exec W (Unit {0})
  -- `bufio.Reader.Peek` on the standard input: the bytes, and the error beside them.
  pub peek_stdin : ℕ → Exec W (String × Option Error)
  pub is_compressed : String → Bool
  pub is_tar_header : String → Bool
  pub secure_join : String → String → Outcome String
  -- `io.Copy(f, buf)` of the buffered standard input.
  pub copy_stdin : Handle → Exec W (Unit {0})
  pub new_gzip_reader : Exec W Handle
  pub new_tar_reader : Handle → Handle
  pub next_entry : Handle → Exec W (Option TarHeader)
  pub open_file : String → ℕ → Exec W Handle
  pub copy_entry : Handle → Handle → Exec W (Unit {0})

pub record Services (W : Type 0) : Type 0 where
  pub references : References
  pub files : Files W
  pub sessions : Sessions W
  pub workers : Workers W
  pub images : Images W
  pub processes : Processes W
  pub inputs : Inputs W
