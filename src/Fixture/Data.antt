-- ===== src/Fixture/Data.antt =====
-- The states at which the theorems are applied.
use img.Common.{none, some, false, [], ◌∷◌, ◌≡◌, refl, ◌==◌, if◌then◌else◌, ◌&&◌, Bool}
use img.Common.Exec.{ok, ◌>>=◌}
use img.Common.FilePath
use img.Common.Int.{ℤ, pos}
use img.Services.{Descriptor, WorkerOpt, TarHeader, UsageRecord}
use img.Client.{State, Client, call}
use img.Client.Worker.{create_worker_opt}
use img.Command.{Globals}
use img.Fixture.{World, memory, meta_file}
use img.Reexec.{Watch, quiet}

abbrev pub layer : Descriptor
layer = record { media_type = "m"; digest = "sha256:1"; size = pos 1 }

-- One image, `a`.
abbrev pub start : World
start = record {
  names = λ f n k. if f == meta_file && (n == "buildkit" && k == "a") then some layer else none;
  closed = λ h. false;
  outside = "root";
  entries = [];
  waits = [];
  stored = none;
  env = λ k. if k == "PATH" then "/bin" else "";
  files = λ path. none;
  sent = [];
  spawned = false;
  living = false;
  killed = none;
}

abbrev pub native_client : Client
native_client = record {
  backend = "native";
  local_dirs = [];
  root = "/tmp/img/runc/native";
  session_manager = none;
  controller = none;
}

abbrev pub running : State World
running = record { host = start; client = native_client; out = []; verbose = false; channel = [] }

abbrev pub opt : WorkerOpt
opt = record {
  id = "worker";
  labels = [];
  session_manager = 4;
  metadata_store = 8;
  executor = 11;
  snapshotter = 13;
  content_store = 13;
  applier = 13;
  differ = 13;
  image_store = some 13;
}

pub opens : (create_worker_opt memory running).0 ≡ ok opt
unfolding create_worker_opt call FilePath.join ◌>>=◌
opens = refl

abbrev pub usual : Globals
usual = record { backend = "auto"; state_dir = "/tmp/img"; debug = false }

abbrev pub header : TarHeader
header = record { name = "etc/passwd"; typeflag = b'0'; mode = pos 0o644 }

-- An archive of one file.
abbrev pub unpacking : State World
unpacking = record running { host = record start { entries = header ∷ [] } }

-- A child that exits with status 3 at the second poll.
abbrev pub waiting : State World
waiting = record running { host = record start { waits = 0 ∷ 768 ∷ [] } }

abbrev pub usage_record : ℤ → Bool → UsageRecord
usage_record size in_use = record {
  id = "r";
  is_mutable = false;
  in_use = in_use;
  size = size;
  parent = "";
  created_at = "now";
  last_used_at = none;
  usage_count = pos 1;
  description = [];
}

-- No signal comes.
abbrev pub calm : Watch
calm = record { handler = quiet; fuel = 5 }
