-- ===== src/Common/FilePath.antt =====
-- The functions of Go's `path/filepath` that the program calls, as on Unix: `Join`, `Dir`, `Base`,
-- and `Clean`, which the first two end in.
mod Runs
use Prim.Native.Char.{Char, code}
use Prim.Native.String.{String, ◌++◌}
use Prim.Native.String
use mathlib.Core.Bool.{Bool, true, false, ◌||◌}
use mathlib.Core.List.{List, [], ◌∷◌, reverse}
use text.Mathlib.Text.{◌==◌}
use img.Common.Tests.{if◌then◌else◌}
use img.Common.Text.{same_code}

abbrev pub grow_head : Char → List String → List String
grow_head c [] = String.◌∷◌ c String.[] ∷ []
grow_head c (w ∷ ws) = String.◌∷◌ c w ∷ ws

-- The elements between the slashes.
unfoldable pub split : String → List String
split String.[] = String.[] ∷ []
split (String.◌∷◌ c s) =
    if same_code (code c) b'/' then String.[] ∷ split s else grow_head c (split s)

unfoldable pub join_slash : List String → String
join_slash [] = ""
join_slash (w ∷ []) = w
join_slash (w ∷ v ∷ ws) = w ++ ("/" ++ join_slash (v ∷ ws))

abbrev pub is_rooted : String → Bool
is_rooted String.[] = false
is_rooted (String.◌∷◌ c s) = same_code (code c) b'/'

-- What `..` does to the elements that stand before it, the last first.
abbrev pub go_up : Bool → List String → List String
go_up true [] = []
go_up false [] = ".." ∷ []
go_up rooted (w ∷ ws) = if w == ".." then ".." ∷ w ∷ ws else ws

abbrev pub push_element : Bool → String → List String → List String
push_element rooted w ws =
    if w == "" || w == "." then ws else if w == ".." then go_up rooted ws else w ∷ ws

unfoldable pub resolve : Bool → List String → List String → List String
resolve rooted ws [] = reverse ws
resolve rooted ws (w ∷ more) = resolve rooted (push_element rooted w ws) more

-- `filepath.Clean`
unfoldable pub clean : String → String
unfolding split join_slash resolve
clean path =
    let text = join_slash (resolve (is_rooted path) [] (split path)) in
    if is_rooted path then "/" ++ text else if text == "" then "." else text

-- `filepath.Join`: the empty elements at the front are dropped.
unfoldable pub join : List String → String
unfolding clean join_slash
join [] = ""
join (w ∷ ws) = let rest = join ws in if w == "" then rest else clean (join_slash (w ∷ ws))

abbrev pub keep_slash : Char → String → String
keep_slash c String.[] = if same_code (code c) b'/' then "/" else ""
keep_slash c (String.◌∷◌ d s) = String.◌∷◌ c (String.◌∷◌ d s)

-- The text up to its last slash and with it.
unfoldable pub to_last_slash : String → String
to_last_slash String.[] = ""
to_last_slash (String.◌∷◌ c s) = keep_slash c (to_last_slash s)

-- `filepath.Dir`
unfoldable pub dir : String → String
unfolding clean to_last_slash
dir path = clean (to_last_slash path)

-- The last element that is not empty.
unfoldable pub last_element : String → List String → String
last_element found [] = found
last_element found (w ∷ ws) = last_element (if w == "" then found else w) ws

-- `filepath.Base`
unfoldable pub base : String → String
unfolding split last_element
base path = if path == "" then "." else last_element "/" (split path)
