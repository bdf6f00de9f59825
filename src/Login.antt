-- ===== src/Login.antt =====
-- login.go
pub mod Credentials
use img.Common.{String, Bool, true, false, List, [], ◌∷◌, ◌<>◌, ◌==◌, ◌&&◌, not, if◌then◌else◌}
use img.Common.Exec.{
  Exec, Outcome, ok, err, halt, panic, diverge, errorf, caused, pure, raise, exit, ◌>>=◌, ◌>>◌,
  attempt, or_fail,
}
use img.Common.Output.{text, error, stdout, stderr, logged}
use img.Common.Text.{trim_suffix, trim_space}
use img.Services.{Services, Handle}
use img.Services.Accounts.{AuthConfig, Accounts}
use img.Client.{State, call, lift, print}
use img.Flag.{Spec, switch, takes_value}
use img.Command.{Description, Globals}

abbrev pub default_docker_registry : String
default_docker_registry = "https://index.docker.io/v1/"

abbrev pub login_description : Description
login_description = record {
  name = "login";
  args = "[OPTIONS] [SERVER]";
  short_help = "Log in to a Docker registry.";
  long_help =
      "Log in to a Docker registry.\nIf no server is specified, the default ("
      <> (default_docker_registry <> ") is used.");
  hidden = false;
  do_reexec = false;
  requires_runc = false;
}

-- `Register`
abbrev pub login_flags : List Spec
login_flags =
    record { name = "u"; usage = "Username"; default = ""; kind = takes_value }
    ∷ record { name = "p"; usage = "Password"; default = ""; kind = takes_value }
    ∷ record {
      name = "password-stdin";
      usage = "Take the password from stdin";
      default = "false";
      kind = switch;
    }
    ∷ []

pub record LoginCommand : Type 0 where
  pub user : String
  pub password : String
  pub password_stdin : Bool
  pub server_address : String

-- The server that `Run` logs in to: the first argument, or the default where that is empty.
unfoldable pub server : LoginCommand → List String → String
server cmd [] = if cmd.server_address == "" then default_docker_registry else cmd.server_address
server cmd (arg ∷ args) = if arg == "" then default_docker_registry else arg

-- "Configure the token."
unfoldable pub with_token : AuthConfig → String → AuthConfig
with_token auth token =
    if token == "" then auth else record auth { password = ""; identity_token = token }

-- A text that must not be empty, and the error if it is.
unfoldable pub required : {S : Type 0} → String → String → Exec S String
required message value = if value == "" then raise (errorf message []) else pure value

abbrev hub_message : String
hub_message =
    "Login with your Docker ID to push and pull images from Docker Hub. If you don't have a Docker ID, head over to https://hub.docker.com to create one.\n"

module _ {W : Type 0} (S : Services W) (A : Accounts W) where
  unfoldable pub line_or_exit : Outcome String → Exec (State W) String
  line_or_exit (err e) = do print (stderr "reading input failed: %v" (error e ∷ [])); exit 1
  line_or_exit (ok line) = pure line
  line_or_exit (halt n) = lift (halt n)
  line_or_exit panic = lift panic
  line_or_exit diverge = lift diverge

  -- `readInput`
  unfoldable pub read_input : Exec (State W) String
  unfolding line_or_exit
  read_input = do line ← attempt (call A.read_line); line_or_exit line

  -- `promptWithDefault`
  unfoldable pub prompt_with_default : String → String → Exec (State W) (Unit {0})
  prompt_with_default prompt config_default =
      if config_default == ""
      then print (stdout "%s: " (text prompt ∷ []))
      else print (stdout "%s (%s): " (text prompt ∷ text config_default ∷ []))

  -- The user's name: the flag, else the line that is typed, else the name of the configuration.
  unfoldable pub ask_user : String → String → String → Exec (State W) String
  unfolding read_input prompt_with_default
  ask_user address configured user =
      if user == ""
      then (do
        if address == default_docker_registry then print (stdout hub_message []) else pure tt
        prompt_with_default "Username" configured
        line ← read_input
        pure (if trim_space line == "" then configured else trim_space line))
      else pure user

  unfoldable pub ask_password : String → Exec (State W) String
  unfolding read_input required
  ask_password password =
      if password == ""
      then (do
        old ← call A.save_state
        print (stdout "Password: " [])
        _ ← attempt (call (A.disable_echo old))
        typed ← read_input
        print (stdout "\n" [])
        or_fail (caused "restoring old terminal failed: %v" []) (call (A.restore_terminal old))
        required "Password is required" typed)
      else pure password

  -- `configureAuth`
  unfoldable pub configure_auth : String → String → String → Exec (State W) (Handle × AuthConfig)
  unfolding ask_user ask_password required
  configure_auth user password server_address = do
    let address =
        if server_address == default_docker_registry
        then server_address
        else A.convert_to_hostname server_address
    dcfg ← or_fail (caused "loading config file failed: %v" []) (call A.load_config)
    auth ←
        or_fail (caused "getting auth config for %s failed: %v" (address ∷ []))
          (call (A.get_auth_config dcfg address))
    terminal ← call A.stdin_is_terminal
    if password == "" && not terminal
        then raise (errorf "cannot perform an interactive login from a non TTY device" [])
        else pure tt
    asked ← ask_user address (trim_space auth.username) (trim_space user)
    user' ← required "Username cannot be empty" asked
    password' ← ask_password password
    pure (
      dcfg,
      record auth {
        username = user';
        password = password';
        server_address = address;
        identity_token = "";
      },
    )

  -- The checks on `-p`, and the password that comes from the standard input.
  unfoldable pub check_password : LoginCommand → Exec (State W) (Unit {0})
  check_password cmd = if cmd.password == "" then pure tt else (do
    print (logged "WARNING! Using --password via the CLI is insecure. Use --password-stdin." [])
    if cmd.password_stdin
        then raise (errorf "--password and --password-stdin are mutually exclusive" [])
        else pure tt)

  unfoldable pub read_password : LoginCommand → Exec (State W) String
  read_password cmd =
      if cmd.password_stdin
      then if cmd.user == ""
        then raise (errorf "Must provide --username with --password-stdin" [])
        else (do
          contents ← call S.inputs.read_stdin
          pure (trim_suffix 13 (trim_suffix 10 contents)))
      else pure cmd.password

  -- `Run`
  unfoldable pub run_login : Globals → LoginCommand → List String → Exec (State W) (Unit {0})
  unfolding server with_token configure_auth check_password read_password
  run_login g cmd args = do
    check_password cmd
    password ← read_password cmd
    configured ← configure_auth cmd.user password (server cmd args)
    r ←
        or_fail (caused "creating registry client failed: %v" [])
          (call (A.new_registry configured.1 g.debug))
    token ←
        or_fail (caused "getting registry token failed: %v" [])
          (call (A.token r (A.registry_url r)))
    let auth = with_token configured.1 token
    or_fail (caused "saving credentials failed: %v" [])
        (call (A.store configured.0 auth.server_address auth))
    print (stdout "Login succeeded.\n" [])
