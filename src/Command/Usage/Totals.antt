-- ===== src/Command/Usage/Totals.antt =====
-- The totals of `img du`, and the shortened descriptions.
use Prim.Native.Nat.{zero, suc, ◌+◌, ◌≤◌, ◌<◌, ◌^◌, min}
use img.Common.{
  ℕ, Bool, List, [], ◌∷◌, ◌++◌, ◌≡◌, refl, ◌∙◌, arith, ltb, if◌then◌else◌, length, inl, inr,
  Bool-cases,
}
use img.Common.Int.{ℤ, pos, negsuc, is_positive, add64}
use img.Services.{UsageRecord}
use img.Command.Usage.{totals, shorten, take, ellipsis}

-- The size that counts.
abbrev pub counted : ℤ → ℕ
counted (pos n) = n
counted (negsuc n) = 0

abbrev pub sum_all : List UsageRecord → ℕ
sum_all [] = 0
sum_all (di ∷ du) = counted di.size + sum_all du

abbrev pub sum_unused : List UsageRecord → ℕ
sum_unused [] = 0
sum_unused (di ∷ du) = (if di.in_use then 0 else counted di.size) + sum_unused du

pub add64-pos : (a b : ℕ) → a + b < 2 ^ 63 → add64 (pos a) (pos b) ≡ pos (a + b)
unfolding add64
add64-pos a b h = ground arith

sum_unused-le : (du : List UsageRecord) → sum_unused du ≤ sum_all du
sum_unused-le [] = omega arith
sum_unused-le (di ∷ du) = ground (arith, sum_unused-le du)

add_counted :
    (t : ℕ) (z : ℤ)
    → t + counted z < 2 ^ 63
    → (if is_positive z then add64 (pos t) z else pos t) ≡ pos (t + counted z)
add_counted t (pos n) h = ground (arith, add64-pos t n)
add_counted t (negsuc n) h = ground arith

add_unused :
    (r : ℕ) (z : ℤ) (used : Bool)
    → r + counted z < 2 ^ 63
    → (if is_positive z then (if used then pos r else add64 (pos r) z) else pos r)
      ≡ pos (r + (if used then 0 else counted z))
add_unused r (pos n) used h = ground (arith, add64-pos r n)
add_unused r (negsuc n) used h = ground arith

totals-from :
    (du : List UsageRecord) (t r : ℕ)
    → t + sum_all du < 2 ^ 63
    → r ≤ t
    → totals (pos t) (pos r) du ≡ (pos (t + sum_all du), pos (r + sum_unused du))
unfolding totals
totals-from [] t r h k = ground arith
totals-from (di ∷ du) t r h k =
    rw
      (
        add_counted t di.size (omega arith),
        add_unused r di.size di.in_use (omega arith),
        totals-from du (t + counted di.size) (r + (if di.in_use then 0 else counted di.size))
            (omega arith) (ground arith),
      )
      (ground arith)

-- Where the positive sizes add up to less than 2 ^ 63, the loop's `int64` sums are the sum of all
-- positive sizes and the sum of those not in use, and the second is at most the first.
pub totals_lem :
    (du : List UsageRecord)
    → sum_all du < 2 ^ 63
    → (totals (pos 0) (pos 0) du ≡ (pos (sum_all du), pos (sum_unused du)))
      × (sum_unused du ≤ sum_all du)
totals_lem du h = (totals-from du 0 0 (omega arith) (omega arith) ∙ ground arith, sum_unused-le du)

length-take : (n : ℕ) (xs : List ℕ) → length (take n xs) ≡ min n (length xs)
length-take zero xs = omega arith
length-take (suc n) [] = omega arith
length-take (suc n) (x ∷ xs) = omega (arith, length-take n xs)

length-append : (xs ys : List ℕ) → length (xs ++ ys) ≡ length xs + length ys
length-append [] ys = omega arith
length-append (x ∷ xs) ys = omega (arith, length-append xs ys)

take-append : (n : ℕ) (xs ys : List ℕ) → n ≤ length xs → take n (xs ++ ys) ≡ take n xs
take-append zero xs ys h = refl
take-append (suc n) [] ys h = absurd (omega arith)
take-append (suc n) (x ∷ xs) ys h = rw (take-append n xs ys (omega arith))

take-take : (n : ℕ) (xs : List ℕ) → take n (take n xs) ≡ take n xs
take-take zero xs = refl
take-take (suc n) [] = refl
take-take (suc n) (x ∷ xs) = rw (take-take n xs)

-- A printed description has at most 53 bytes, begins with the first 50 bytes of the record's, and is
-- the record's own where that has at most 50.
pub shorten_lem :
    (desc : List ℕ)
    → (length (shorten desc) ≤ 53)
      × (take 50 (shorten desc) ≡ take 50 desc)
      × (length desc ≤ 50 → shorten desc ≡ desc)
unfolding shorten
shorten_lem desc = elim (Bool-cases (ltb 50 (length desc))) [
  | inl long ↦ rw long (
    omega (arith, length-append (take 50 desc) ellipsis, length-take 50 desc),
    take-append 50 (take 50 desc) ellipsis (ground (arith, length-take 50 desc))
        ∙ take-take 50 desc,
    λ short. absurd (ground arith),
  )
  | inr short ↦ rw short (ground arith, refl, λ _. refl)
]
