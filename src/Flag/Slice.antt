-- ===== src/Flag/Slice.antt =====
-- `stringSlice` of main.go, the value of a flag that may be given several times.
use img.Common.{String, List, [], ◌∷◌, ◌++◌, ◌<>◌, ◌==◌, if◌then◌else◌}

-- What `%s` prints between the brackets.
abbrev pub spaced : List String → String
spaced [] = ""
spaced (w ∷ []) = w
spaced (w ∷ v ∷ ws) = w <> (" " <> spaced (v ∷ ws))

-- `String`
unfoldable pub show : List String → String
show slice = "[" <> (spaced slice <> "]")

-- `Set`
unfoldable pub set : List String → String → List String
set slice value = slice ++ (value ∷ [])

-- The slice after the settings of a command line, in their order.
unfoldable pub set_all : String → List String → List (String × String) → List String
unfolding set
set_all name slice [] = slice
set_all name slice ((n, v) ∷ rest) = set_all name (if n == name then set slice v else slice) rest
