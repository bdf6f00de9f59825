-- ===== src/Fixture.antt =====
-- A small host in memory, at which the theorems are applied: one metadata file, and a store of names.
pub mod Lawful
pub mod Data
use img.Common.{
  ℕ, String, Bool, true, false, Option, none, some, List, [], ◌∷◌, ◌++◌, ◌≡◌, ◌==◌, ◌<>◌,
  if◌then◌else◌,
}
use img.Common.Exec.{Exec, Outcome, ok, err, Kind, foreign, errorf}
use img.Common.Int.{ℤ, pos}
use img.Common.Text.{same_code}
use img.Command.Save.Exports.{Export}
use img.Services.Accounts.{AuthConfig, Accounts}
use img.Services.{TarHeader, Services, Handle, Context, Descriptor, Image}
use img.Services.Laws.{Tags, put_tag}

pub record World : Type 0 where
  pub names : Tags
  -- The writers that were closed.
  pub closed : Handle → Bool
  -- The text of a file outside every directory that an archive is unpacked to.
  pub outside : String
  -- The entries of the archive on the standard input that are not read yet.
  pub entries : List TarHeader
  -- What the next polls for a child's status find.
  pub waits : List ℕ
  -- The credentials that were stored.
  pub stored : Option AuthConfig
  -- The environment and the files that an installation of runc changes.
  pub env : String → String
  pub files : String → Option (String × ℕ)
  -- The exports that were made.
  pub sent : List Export
  -- The child: whether it was started, whether it runs, and the group that was killed.
  pub spawned : Bool
  pub living : Bool
  pub killed : Option ℕ

abbrev pub meta_file : String
meta_file = "/tmp/img/runc/native/containerdmeta.db"

abbrev pub give : {A : Type 0} → A → Exec World A
give a w = (ok a, w)

abbrev pub not_found : {A : Type 0} → Outcome A
not_found = err (foreign Kind.not_found "not found")

abbrev pub plain_image : String → Descriptor → Image
plain_image k d = record { name = k; labels = []; target = d; created_at = 0; updated_at = 0 }

abbrev pub got : String → Option Descriptor → Outcome Image
got k none = not_found
got k (some d) = ok (plain_image k d)

-- The names of one namespace of the file.
abbrev pub in_space : {A : Type 0} → Option String → (String → Exec World A) → Exec World A
in_space none f w = (err (errorf "namespace is required" []), w)
in_space (some n) f w = f n w

abbrev pub put : World → String → String → Option Descriptor → World
put w n k d = record w { names = put_tag w.names meta_file n k d }

abbrev pub updated : String → Image → World → Option Descriptor → Outcome Image × World
updated n i w none = (not_found, w)
updated n i w (some _) = (ok i, put w n i.name (some i.target))

abbrev pub created : String → Image → World → Option Descriptor → Outcome Image × World
created n i w none = (ok i, put w n i.name (some i.target))
created n i w (some _) = (err (foreign Kind.other "already exists"), w)

abbrev pub deleted : String → String → World → Option Descriptor → Outcome (Unit {0}) × World
deleted n k w none = (not_found, w)
deleted n k w (some _) = (ok tt, put w n k none)

abbrev pub exported : Bool → Export → World → Outcome (Unit {0}) × World
exported true e w = (err (errorf "file already closed" []), w)
exported false e w = (ok tt, record w { sent = w.sent ++ (e ∷ []) })

abbrev pub popped : List TarHeader → World → Outcome (Option TarHeader) × World
popped [] w = (err (foreign Kind.eof "EOF"), w)
popped (e ∷ es) w = (ok (some e), record w { entries = es })

abbrev pub polled : List ℕ → World → Outcome ℕ × World
polled [] w = (err (foreign Kind.no_child "no child processes"), w)
polled (ws ∷ more) w = (ok ws, record w { waits = more })

abbrev pub truncated : String → String → String
truncated path old = if path == "/etc/passwd" then "" else old

abbrev pub listed_image : Image
listed_image = plain_image "a" (record { media_type = "m"; digest = "sha256:1"; size = pos 1 })

abbrev pub memory : Services World
memory = record {
  references = record {
    parse_normalized_named =
        λ s. if s == "" then err (errorf "invalid reference format" []) else ok s;
    tag_name_only = λ s. s;
    new_image_identifier = λ s. ok 7;
  };
  files = record {
    mkdir_all = λ p m. give tt;
    stat = λ p. give tt;
    create = λ p. give 3;
    close = λ h w. (ok tt, record w { closed = λ j. if same_code j h then true else w.closed j });
    stdout = 1;
    stdout_is_terminal = give false;
    remove_all = λ p. give tt;
    now = give 5;
  };
  sessions = record {
    new_id = give "id";
    new_manager = give 4;
    new_session = λ ctx a b. give 5;
    allow_sync = λ h d. give tt;
    allow_auth = λ h. give tt;
    id = λ h. "session";
    dialer = λ h m. h;
    run = λ h ctx d. give tt;
    close = λ h. give tt;
  };
  workers = record {
    overlay_supported = λ p w. (err (errorf "overlay not supported" []), w);
    new_metadata_store = λ p. give 8;
    parent_euid = give 0;
    new_native_snapshotter = λ p. give 9;
    new_overlay_snapshotter = λ p. give 10;
    new_runc_executor = λ p b. give 11;
    new_local_store = λ p. give 12;
    open_bolt = λ p m b w.
        (if p == meta_file then ok 13 else err (foreign Kind.not_exist "no such file"), w);
    new_db = λ h c ss. h;
    init_db = λ h. give tt;
    collect_garbage = λ h. give tt;
    throttle = λ n m. m;
    db_content_store = λ h. h;
    db_snapshotter = λ h s. h;
    new_image_store = λ h. h;
    new_content_store = λ h s gc. h;
    new_snapshotter = λ h c m s gc. h;
    new_applier = λ h. h;
    new_differ = λ h. h;
    worker_id = λ p. give "worker";
    labels = λ a b. [];
    new_worker = λ o. give 14;
    add_worker = λ hs h. ok (h ∷ hs);
    dockerfile_frontend = 15;
    new_cache_storage = λ p. give 16;
    new_controller = λ o. give 17;
    disk_usage = λ h ctx f. give [];
  };
  images = record {
    get = λ h ctx k. in_space ctx.namespace (λ n w. (got k (w.names meta_file n k), w));
    update = λ h ctx i. in_space ctx.namespace (λ n w. updated n i w (w.names meta_file n i.name));
    create = λ h ctx i. in_space ctx.namespace (λ n w. created n i w (w.names meta_file n i.name));
    delete = λ h ctx k b. in_space ctx.namespace (λ n w. deleted n k w (w.names meta_file n k));
    list = λ h ctx fs. give (listed_image ∷ []);
    image_size = λ i ctx h. give (pos 100);
    new_resolver = λ ctx m s. 18;
    pull = λ p ctx. give (record { media_type = "m"; digest = "sha256:9"; size = pos 9 });
    push = λ ctx m c d k b. give tt;
    export = λ ctx k c d h w. exported (w.closed h) (record { name = k; target = d; writer = h }) w;
  };
  processes = record {
    getenv = λ k. give (if k == "IMG_DO_UNSHARE" then "1" else "");
    setenv = λ k v. give tt;
    start_self = λ l e. give 20;
    getpgid = λ p. give 20;
    kill_group = λ p. give tt;
    wait_group = λ p w. polled w.waits w;
    look_path = λ k w. (err (foreign Kind.not_exist "not found"), w);
    runc_version = give tt;
    asset = λ k. ok "binary";
    temp_dir = λ p. give "/tmp/dir";
    write_file = λ p d m. give tt;
  };
  inputs = record {
    read_stdin = give "FROM scratch";
    temp_file = λ p. give (21, "/tmp/file");
    write = λ h d. give tt;
    peek_stdin = λ n. give ("", none);
    is_compressed = λ s. false;
    is_tar_header = λ s. false;
    secure_join = λ a b. ok (a <> ("/" <> b));
    copy_stdin = λ h. give tt;
    new_gzip_reader = give 22;
    new_tar_reader = λ h. h;
    next_entry = λ h w. popped w.entries w;
    open_file = λ p m w. (ok 23, record w { outside = truncated p w.outside });
    copy_entry = λ f t. give tt;
  };
}

-- A terminal at which "bob" is typed, and a registry that gives a token to all.
abbrev pub desk : Accounts World
desk = record {
  convert_to_hostname = λ s. s;
  load_config = give 30;
  get_auth_config = λ d a. give (record {
    username = "";
    password = "";
    auth = "";
    email = "";
    server_address = a;
    identity_token = "";
    registry_token = "";
  });
  stdin_is_terminal = give true;
  save_state = give 31;
  disable_echo = λ h. give tt;
  restore_terminal = λ h. give tt;
  read_line = give "bob";
  new_registry = λ a b. give 32;
  registry_url = λ h. "https://r.example";
  token = λ r u. give "token";
  store = λ d a c w. (ok tt, record w { stored = some c });
}
