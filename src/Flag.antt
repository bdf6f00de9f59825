-- ===== src/Flag.antt =====
-- Go's `flag.FlagSet`, on which main.go and the methods `Register` of the commands stand.
pub mod Laws
pub mod Order
pub mod Slice
use Prim.Native.Char.{code}
use Prim.Native.String.{String}
use Prim.Native.String
use mathlib.Core.Bool.{Bool, true, false, ◌||◌}
use img.Common.{Option, none, some, List, [], ◌∷◌, ◌==◌, if◌then◌else◌}
use img.Common.Exec.{Outcome, ok, err, errorf, caused, foreign}
use img.Common.Exec
use img.Common.Text.{same_code, cut}

-- `switch` is a flag whose `IsBoolFlag` is true.
pub data Kind : Type 0 where
  switch takes_value : Kind

-- A flag as it is registered, with the text that `String` gives for its default.
pub record Spec : Type 0 where
  pub name : String
  pub usage : String
  pub default : String
  pub kind : Kind

unfoldable pub kind_of : List Spec → String → Option Kind
kind_of [] name = none
kind_of (f ∷ fs) name = if f.name == name then some f.kind else kind_of fs name

-- The flags that the command line sets, in its order, and the arguments that are left.
pub record Parsed : Type 0 where
  pub settings : List (String × String)
  pub args : List String

pub data Shape : Type 0 where
  -- The first argument is no flag.
  plain : Shape
  -- The first argument is `--`.
  end_mark : Shape
  -- "bad flag syntax"
  bad : Shape
  named : String → Option String → Shape

-- The loop that looks for `=` behind the first byte of the name.
abbrev pub split_value : String → Shape
split_value name = elim (cut b'=' name) [ none ↦ named name none | some (n, v) ↦ named n (some v) ]

-- What stands behind the dashes.
unfoldable pub name_shape : String → Shape
name_shape String.[] = bad
name_shape (String.◌∷◌ c s) =
    if same_code (code c) b'-' || same_code (code c) b'=' then bad else split_value (String.◌∷◌ c s)

unfoldable pub second : String → Shape
unfolding name_shape
second String.[] = plain
second (String.◌∷◌ c String.[]) =
    if same_code (code c) b'-' then end_mark else name_shape (String.◌∷◌ c String.[])
second (String.◌∷◌ c (String.◌∷◌ d s)) =
    if same_code (code c) b'-'
    then name_shape (String.◌∷◌ d s)
    else name_shape (String.◌∷◌ c (String.◌∷◌ d s))

unfoldable pub shape : String → Shape
unfolding second
shape String.[] = plain
shape (String.◌∷◌ c s) = if same_code (code c) b'-' then second s else plain

-- `strconv.ParseBool`, with the value as `String` of the flag gives it back.
unfoldable pub parse_bool : String → Option String
parse_bool s =
    if s == "1" || s == "t" || s == "T" || s == "true" || s == "TRUE" || s == "True"
    then some "true"
    else if s == "0" || s == "f" || s == "F" || s == "false" || s == "FALSE" || s == "False"
    then some "false"
    else none

-- What a flag that nobody registered ends in: `-help` and `-h` ask for the usage text.
abbrev pub undefined : String → Outcome Parsed
undefined name =
    if name == "help" || name == "h"
    then err (foreign Exec.Kind.help_requested "flag: help requested")
    else err (errorf "flag provided but not defined: -%s" (name ∷ []))

abbrev pub needs_argument : String → Outcome Parsed
needs_argument name = err (errorf "flag needs an argument: -%s" (name ∷ []))

abbrev pub add_setting : String → String → Outcome Parsed → Outcome Parsed
add_setting name v (ok p) = ok (record p { settings = (name, v) ∷ p.settings })
add_setting name v other = other

-- The value that `parse_bool` reads from `v`.
abbrev pub set_switch : String → String → Option String → Outcome Parsed → Outcome Parsed
set_switch name v (some b) rest = add_setting name b rest
set_switch name v none rest = err (
    caused "invalid boolean value %q for -%s: %v" (v ∷ name ∷ [])
      (foreign Exec.Kind.other "invalid syntax"))

-- One round of the loop at `-name=v`, and the parse of the arguments that are left.
abbrev pub set_flag : Option Kind → String → String → Outcome Parsed → Outcome Parsed
set_flag none name v rest = undefined name
set_flag (some switch) name v rest = set_switch name v (parse_bool v) rest
set_flag (some takes_value) name v rest = add_setting name v rest

module _ (formal : String → Option Kind) where
  -- `Parse` up to the error that it prints, where there is one. The second argument is the name of a
  -- flag that waits for its value in the next argument.
  unfoldable pub parse_from : Option String → List String → Outcome Parsed
  unfolding shape parse_bool
  parse_from none [] = ok (record { settings = []; args = [] })
  parse_from (some name) [] = needs_argument name
  parse_from (some name) (v ∷ rest) = add_setting name v (parse_from none rest)
  parse_from none (arg ∷ rest) = elim (shape arg) [
    | plain ↦ ok (record { settings = []; args = arg ∷ rest })
    | end_mark ↦ ok (record { settings = []; args = rest })
    | bad ↦ err (errorf "bad flag syntax: %s" (arg ∷ []))
    | named name (some v) ↦ set_flag (formal name) name v (parse_from none rest)
    | named name none ↦ elim (formal name) [
      | some takes_value ↦ parse_from (some name) rest
      | some switch ↦ add_setting name "true" (parse_from none rest)
      | none ↦ undefined name
    ]
  ]

  unfoldable pub parse : List String → Outcome Parsed
  unfolding parse_from
  parse args = parse_from none args

-- The value of a flag after the parse: the last setting counts.
unfoldable pub setting : String → String → List (String × String) → String
setting name default [] = default
setting name default ((n, v) ∷ rest) = setting name (if n == name then v else default) rest
