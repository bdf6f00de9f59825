-- ===== src/Common/Text.antt =====
-- The functions of Go's `strings` that the program calls, on texts by characters.
use Prim.Native.Nat.{ℕ, ◌+◌, compare, Ordering}
use Prim.Native.Char.{Char, code}
use Prim.Native.String.{String, [], ◌∷◌}
use mathlib.Core.Bool.{Bool, true, false, ◌||◌, ◌&&◌}
use mathlib.Core.Option.{Option, none, some}
use mathlib.Core.List.{List}
use img.Common.Tests.{if◌then◌else◌, leb}

abbrev pub same_code : ℕ → ℕ → Bool
same_code a b = elim (compare a b) [ Ordering.eq ↦ true | _ ↦ false ]

abbrev pub codes : String → List ℕ
codes [] = List.[]
codes (c ∷ s) = List.◌∷◌ (code c) (codes s)

abbrev pub grow_key : Char → Option (String × String) → Option (String × String)
grow_key c none = none
grow_key c (some (k, v)) = some (c ∷ k, v)

-- `strings.SplitN(s, sep, 2)` at a one-byte separator: the text before its first place and the text
-- after it, and `none` where the slice has one element.
unfoldable pub cut : ℕ → String → Option (String × String)
cut sep [] = none
cut sep (c ∷ s) = if same_code (code c) sep then some ([], s) else grow_key c (cut sep s)

-- `strings.TrimSuffix(s, suffix)` at a one-byte suffix.
unfoldable pub trim_suffix : ℕ → String → String
trim_suffix e [] = []
trim_suffix e (c ∷ []) = if same_code (code c) e then [] else c ∷ []
trim_suffix e (c ∷ d ∷ s) = c ∷ trim_suffix e (d ∷ s)

-- `strings.HasSuffix(s, suffix)` at a one-byte suffix.
unfoldable pub has_suffix : ℕ → String → Bool
has_suffix e [] = false
has_suffix e (c ∷ []) = same_code (code c) e
has_suffix e (c ∷ d ∷ s) = has_suffix e (d ∷ s)

-- `unicode.IsSpace`
abbrev pub is_space : ℕ → Bool
is_space c =
    (leb 9 c && leb c 13)
    || same_code c 32
    || same_code c 0x85
    || same_code c 0xa0
    || same_code c 0x1680
    || (leb 0x2000 c && leb c 0x200a)
    || same_code c 0x2028
    || same_code c 0x2029
    || same_code c 0x202f
    || same_code c 0x205f
    || same_code c 0x3000

unfoldable pub trim_left : String → String
trim_left [] = []
trim_left (c ∷ s) = if is_space (code c) then trim_left s else c ∷ s

-- A character before text that is already trimmed on the right.
abbrev pub keep_unless_last : Char → String → String
keep_unless_last c [] = if is_space (code c) then [] else c ∷ []
keep_unless_last c (d ∷ s) = c ∷ d ∷ s

unfoldable pub trim_right : String → String
trim_right [] = []
trim_right (c ∷ s) = keep_unless_last c (trim_right s)

-- `strings.TrimSpace`
unfoldable pub trim_space : String → String
unfolding trim_left trim_right
trim_space s = trim_right (trim_left s)

-- `strings.ToLower` on ASCII letters. The two tests that the program makes on its result look for the
-- letters h, e, l and p and for a dash, to which no other character is lowered.
abbrev pub lower : ℕ → ℕ
lower c = if leb 65 c && leb c 90 then c + 32 else c

unfoldable pub starts_codes : List ℕ → List ℕ → Bool
starts_codes List.[] s = true
starts_codes (List.◌∷◌ p ps) List.[] = false
starts_codes (List.◌∷◌ p ps) (List.◌∷◌ c s) = same_code p c && starts_codes ps s

-- `strings.Contains`, on codes.
unfoldable pub contains_codes : List ℕ → List ℕ → Bool
unfolding starts_codes
contains_codes pattern List.[] = starts_codes pattern List.[]
contains_codes pattern (List.◌∷◌ c s) =
    starts_codes pattern (List.◌∷◌ c s) || contains_codes pattern s
