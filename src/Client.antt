-- ===== src/Client.antt =====
-- client/client.go and client/session.go: the client object, its construction, and its sessions.
-- A command makes one client; the pointer to it is the field `client` of the state.
pub mod Calls
pub mod Backends
pub mod Picked
pub mod Worker
pub mod Sessions
pub mod Silent
pub mod Controller
pub mod Solve
pub mod Images
use img.Common.{
  String, Bool, true, false, Option, none, some, List, [], ◌∷◌, ◌==◌, if◌then◌else◌, ◌++◌,
}
use img.Common.Exec.{Exec, Outcome, ok, caused, pure, exit, ◌>>=◌, ◌>>◌, attempt, or_fail}
use img.Common.Exec.{gets, modify}
use img.Common.FilePath
use img.Common.Output.{Line, Arg, text, logged}
use img.Services.{Services, Handle, Context}
use img.Services.Progress.{StatusResponse}
use img.Backend.{auto_backend, native_backend, overlayfs_backend}

pub record Client : Type 0 where
  pub backend : String
  pub local_dirs : List (String × String)
  pub root : String
  pub session_manager : Option Handle
  pub controller : Option Handle

-- The state of a running command: the host, the client, the lines printed so far, whether the log level
-- is that of `-d`, and what was sent over the channel of `img build`.
pub record State (W : Type 0) : Type 0 where
  pub host : W
  pub client : Client
  pub out : List Line
  pub verbose : Bool
  pub channel : List StatusResponse

-- A call of foreign code.
unfoldable pub call : {W A : Type 0} → Exec W A → Exec (State W) A
call m s = ((m s.host).0, record s { host = (m s.host).1 })

-- The result of a foreign function that leaves the host alone.
unfoldable pub lift : {W A : Type 0} → Outcome A → Exec (State W) A
lift o s = (o, s)

unfoldable pub print : {W : Type 0} → Line → Exec (State W) (Unit {0})
unfolding modify
print line = modify (λ s. record s { out = s.out ++ (line ∷ []) })

-- `logrus.Fatalf`
unfoldable pub fatal : {W A : Type 0} → String → List Arg → Exec (State W) A
unfolding print
fatal format args = do print (logged format args); exit 1

-- `logrus.Debugf`
unfoldable pub debugf : {W : Type 0} → String → List Arg → Exec (State W) (Unit {0})
unfolding print gets
debugf format args = do
  shown ← gets (λ s. s.verbose)
  if shown then print (logged format args) else pure tt

unfoldable pub set_client : {W : Type 0} → Client → Exec (State W) (Unit {0})
unfolding modify
set_client c = modify (λ s. record s { client = c })

abbrev pub succeeded : {A : Type 0} → Outcome A → Bool
succeeded (ok a) = true
succeeded _ = false

module _ {W : Type 0} (S : Services W) where
  open S.workers use {overlay_supported}

  -- The `switch` of `New`.
  unfoldable pub resolve_backend : String → String → Exec (State W) String
  unfolding debugf
  resolve_backend root backend =
      if backend == auto_backend
      then (do
        supported ← attempt (call (overlay_supported root))
        let chosen = if succeeded supported then overlayfs_backend else native_backend
        debugf "using backend: %s" (text chosen ∷ [])
        pure chosen)
      else pure backend

  -- `New`
  unfoldable pub new : String → String → List (String × String) → Exec (State W) Client
  unfolding resolve_backend
  new root backend local_dirs = do
    backend' ← resolve_backend root backend
    let root' = FilePath.join (root ∷ "runc" ∷ backend' ∷ [])
    call (S.files.mkdir_all root' 0o700)
    pure (record {
      backend = backend';
      local_dirs = local_dirs;
      root = root';
      session_manager = none;
      controller = none;
    })

  -- What `getSessionManager` does with the field that it finds.
  unfoldable pub manager_or_new : Option Handle → Exec (State W) Handle
  manager_or_new (some m) = pure m
  manager_or_new none = do
    m ← call S.sessions.new_manager
    modify (λ s. record s { client = record s.client { session_manager = some m } })
    pure m

  unfoldable pub get_session_manager : Exec (State W) Handle
  unfolding manager_or_new
  get_session_manager = do field ← gets (λ s. s.client.session_manager); manager_or_new field

  -- `Session`. The directories are offered in the order of the map.
  unfoldable pub session : Context → Exec (State W) (Handle × Handle)
  unfolding get_session_manager
  session ctx = do
    m ← or_fail (caused "failed to create session manager" []) get_session_manager
    s ← or_fail (caused "failed to create session" []) (call (S.sessions.new_session ctx "img" ""))
    dirs ← gets (λ st. st.client.local_dirs)
    call (S.sessions.allow_sync s dirs)
    call (S.sessions.allow_auth s)
    pure (s, S.sessions.dialer s m)

  -- `Close`, which does nothing.
  unfoldable pub close : Exec (State W) (Unit {0})
  close = pure tt
