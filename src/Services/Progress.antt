-- ===== src/Services/Progress.antt =====
-- The messages about a build: what BuildKit's controller sends, and what its display takes.
use img.Common.{ℕ, String, Bool, Option, List}
use img.Common.Int.{ℤ}

pub record Vertex : Type 0 where
  pub digest : String
  pub inputs : List String
  pub name : String
  pub started : Option ℕ
  pub completed : Option ℕ
  pub error : String
  pub cached : Bool

pub record VertexStatus : Type 0 where
  pub id : String
  pub vertex : String
  pub name : String
  pub total : ℤ
  pub current : ℤ
  pub timestamp : ℕ
  pub started : Option ℕ
  pub completed : Option ℕ

pub record VertexLog : Type 0 where
  pub vertex : String
  pub stream : ℕ
  pub msg : String
  pub timestamp : ℕ

-- `controlapi.StatusResponse`; times are nanoseconds.
pub record StatusResponse : Type 0 where
  pub vertexes : List Vertex
  pub statuses : List VertexStatus
  pub logs : List VertexLog

pub record SolveVertex : Type 0 where
  pub digest : String
  pub inputs : List String
  pub name : String
  pub started : Option ℕ
  pub completed : Option ℕ
  pub error : String
  pub cached : Bool

pub record SolveVertexStatus : Type 0 where
  pub id : String
  pub vertex : String
  pub name : String
  pub total : ℤ
  pub current : ℤ
  pub timestamp : ℕ
  pub started : Option ℕ
  pub completed : Option ℕ

-- `payload` is the field `Data`.
pub record SolveVertexLog : Type 0 where
  pub vertex : String
  pub stream : ℕ
  pub payload : String
  pub timestamp : ℕ

pub record SolveStatus : Type 0 where
  pub vertexes : List SolveVertex
  pub statuses : List SolveVertexStatus
  pub logs : List SolveVertexLog
