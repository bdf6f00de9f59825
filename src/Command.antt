-- ===== src/Command.antt =====
-- What the commands share: the descriptions that their methods give to main.go, the global flags,
-- and the context in which they call the client.
pub mod Tag
pub mod Remove
pub mod Save
pub mod Listing
pub mod Usage
pub mod Pull
pub mod Push
pub mod Version
use img.Common.{String, Bool, true, false, Option, none, some, List, [], ◌∷◌}
use img.Services.{Context}

-- The methods of the interface `command` but for `Register` and `Run`.
pub record Description : Type 0 where
  pub name : String
  pub args : String
  pub short_help : String
  pub long_help : String
  pub hidden : Bool
  pub do_reexec : Bool
  pub requires_runc : Bool

-- The global variables that the global flags set.
pub record Globals : Type 0 where
  pub backend : String
  pub state_dir : String
  pub debug : Bool

-- `namespaces.WithNamespace(session.NewContext(ctx, id), "buildkit")`
abbrev pub buildkit_context : String → Context
buildkit_context id = record { namespace = some "buildkit"; session = some id }
