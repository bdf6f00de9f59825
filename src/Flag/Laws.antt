-- ===== src/Flag/Laws.antt =====
-- Runs of the flag parser.
use img.Common.{◌≡◌, refl, String, Option, none, some, List, [], ◌∷◌, ◌==◌, if◌then◌else◌}
use img.Common.Exec.{ok, err, errorf, foreign}
use img.Common.Exec
use img.Common.Text.{cut}
use img.Flag.{Kind, switch, takes_value, shape, plain, parse_from, parse}

abbrev formal : String → Option Kind
formal name = if name == "d" then some switch else if name == "t" then some takes_value else none

parse_runs :
    parse formal ("-t" ∷ "a" ∷ "--d" ∷ "-t=b=c" ∷ "-" ∷ "-x" ∷ [])
    ≡ ok (record {
      settings = ("t", "a") ∷ ("d", "true") ∷ ("t", "b=c") ∷ [];
      args = "-" ∷ "-x" ∷ [];
    })
unfolding parse cut
parse_runs = refl

parse_errors :
    (parse formal ("-x" ∷ []) ≡ err (errorf "flag provided but not defined: -%s" ("x" ∷ [])))
    × (parse formal ("-t" ∷ []) ≡ err (errorf "flag needs an argument: -%s" ("t" ∷ [])))
    × (parse formal ("---d" ∷ []) ≡ err (errorf "bad flag syntax: %s" ("---d" ∷ [])))
    × (parse formal ("-h" ∷ []) ≡ err (foreign Exec.Kind.help_requested "flag: help requested"))
unfolding parse cut
parse_errors = (refl, refl, refl, refl)

-- A first argument that is no flag ends the flags.
pub parse-plain :
    (kinds : String → Option Kind) (arg : String) (rest : List String)
    → shape arg ≡ plain
    → parse kinds (arg ∷ rest) ≡ ok (record { settings = []; args = arg ∷ rest })
unfolding parse
parse-plain kinds arg rest e = rw (e, parse_from) refl
