-- ===== src/Flag/Order.antt =====
-- `VisitAll` visits the flags in the order of their names.
use Prim.Native.Nat.{ℕ}
use mathlib.Core.Bool.{Bool, true, false, ◌||◌, ◌&&◌}
use img.Common.{List, [], ◌∷◌, if◌then◌else◌, ltb}
use img.Common.Text.{codes, same_code}
use img.Flag.{Spec}

-- `<` on texts, by bytes.
unfoldable pub before : List ℕ → List ℕ → Bool
before [] [] = false
before [] (c ∷ s) = true
before (c ∷ s) [] = false
before (c ∷ s) (d ∷ t) = ltb c d || (same_code c d && before s t)

unfoldable pub place : Spec → List Spec → List Spec
unfolding before
place f [] = f ∷ []
place f (g ∷ gs) = if before (codes f.name) (codes g.name) then f ∷ g ∷ gs else g ∷ place f gs

unfoldable pub sorted : List Spec → List Spec
unfolding place
sorted [] = []
sorted (f ∷ fs) = place f (sorted fs)
