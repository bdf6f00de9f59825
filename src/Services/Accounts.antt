-- ===== src/Services/Accounts.antt =====
-- What `img login` calls: the docker configuration and its credentials, the terminal, and the
-- registry's token service.
use img.Common.{String, Bool}
use img.Common.Exec.{Exec}
use img.Services.{Handle}

-- `types.AuthConfig`
pub record AuthConfig : Type 0 where
  pub username : String
  pub password : String
  pub auth : String
  pub email : String
  pub server_address : String
  pub identity_token : String
  pub registry_token : String

pub record Accounts (W : Type 0) : Type 0 where
  pub convert_to_hostname : String → String
  -- `config.Load(config.Dir())`
  pub load_config : Exec W Handle
  pub get_auth_config : Handle → String → Exec W AuthConfig
  pub stdin_is_terminal : Exec W Bool
  pub save_state : Exec W Handle
  pub disable_echo : Handle → Exec W (Unit {0})
  pub restore_terminal : Handle → Exec W (Unit {0})
  -- The first line that a new reader of the standard input finds.
  pub read_line : Exec W String
  pub new_registry : AuthConfig → Bool → Exec W Handle
  pub registry_url : Handle → String
  pub token : Handle → String → Exec W String
  -- `dcfg.GetCredentialsStore(address).Store(auth)`
  pub store : Handle → String → AuthConfig → Exec W (Unit {0})
