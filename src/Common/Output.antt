-- ===== src/Common/Output.antt =====
-- What the program prints, as the format and the arguments that it hands to `fmt`.
use Prim.Native.Nat.{ℕ}
use Prim.Native.String.{String}
use mathlib.Core.Bool.{Bool}
use mathlib.Core.List.{List}
use img.Common.Exec.{Error}
use img.Common.Int.{ℤ}

-- `size` is `units.BytesSize(float64(n))`, and `age` is `units.HumanDuration(now.Sub(t)) + " ago"`.
pub data Arg : Type 0 where
  text : String → Arg
  bytes : List ℕ → Arg
  flag : Bool → Arg
  error : Error → Arg
  number : ℤ → Arg
  size : ℤ → Arg
  age : ℕ → ℕ → Arg

pub data Line : Type 0 where
  stdout : String → List Arg → Line
  stderr : String → List Arg → Line
  -- What logrus writes to standard error, with the level and the time that it adds.
  logged : String → List Arg → Line
