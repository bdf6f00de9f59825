-- ===== src/Common/FilePath/Runs.antt =====
-- Runs of the path functions on inputs whose results Go's own documentation gives.
use mathlib.Core.Path.{◌≡◌, refl}
use mathlib.Core.List.{[], ◌∷◌}
use img.Common.FilePath.{clean, join, dir, base}

clean_runs :
    (clean "a//b/./c/../d/" ≡ "a/b/d")
    × (clean "/../x" ≡ "/x")
    × (clean "../../x/.." ≡ "../..")
    × (clean "" ≡ ".")
    × (clean "/" ≡ "/")
unfolding clean
clean_runs = (refl, refl, refl, refl, refl)

join_runs :
    (join ("/tmp/img" ∷ "runc" ∷ "native" ∷ []) ≡ "/tmp/img/runc/native")
    × (join ("" ∷ "a" ∷ []) ≡ "a")
    × (join ("a" ∷ "../b" ∷ []) ≡ "b")
unfolding join
join_runs = (refl, refl, refl)

dir-base_runs :
    (dir "a/b/Dockerfile" ≡ "a/b")
    × (dir "Dockerfile" ≡ ".")
    × (dir "/" ≡ "/")
    × (base "a/b/Dockerfile" ≡ "Dockerfile")
    × (base "a/b/" ≡ "b")
    × (base "" ≡ ".")
    × (base "//" ≡ "/")
unfolding dir base
dir-base_runs = (refl, refl, refl, refl, refl, refl, refl)
