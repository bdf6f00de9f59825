-- ===== src/Services/Solving.antt =====
-- What `Solve` of client/solve.go calls on BuildKit's controller, and `showProgress` of build.go on the
-- console and its display.
pub mod Laws
use img.Common.{String, List}
use img.Common.Exec.{Exec, Outcome}
use img.Services.{Handle, Context}
use img.Services.Progress.{StatusResponse, SolveStatus}

-- `controlapi.SolveRequest`
pub record SolveRequest : Type 0 where
  pub ref : String
  pub session : String
  pub exporter : String
  pub exporter_attrs : List (String × String)
  pub frontend : String
  pub frontend_attrs : List (String × String)

pub record Solving (W : Type 0) : Type 0 where
  pub solve : Handle → Context → SolveRequest → Exec W (Unit {0})
  -- What it sends before it returns, and what it returns.
  pub status : Handle → String → Exec W (List StatusResponse × Outcome (Unit {0}))
  -- `console.ConsoleFromFile(os.Stderr)`
  pub console : Exec W Handle
  -- `progressui.DisplaySolveStatus`, of all that comes until its channel is closed.
  pub display : Handle → List SolveStatus → Exec W (Unit {0})
