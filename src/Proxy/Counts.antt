-- ===== src/Proxy/Counts.antt =====
-- How often a number is in a list, and what taking one out does to that.
use sdbus_cpp.Prelude.{
  ℕ, ◌+◌, ◌-◌, List, [], ◌∷◌, ◌++◌, ◌≡◌, ◌≢◌, ◌⊎◌, arith, Bool, true, false, ◌==◌, if◌then◌else◌,
}

abbrev pub bit : Bool → ℕ
bit true = 1
bit false = 0

-- One if the numbers are the same.
unfoldable pub same : ℕ → ℕ → ℕ
same j i = bit (j == i)

unfoldable pub count : ℕ → List ℕ → ℕ
count i [] = 0
count i (j ∷ xs) = same j i + count i xs

-- The first occurrence is taken out.
unfoldable pub remove : ℕ → List ℕ → List ℕ
remove i [] = []
remove i (j ∷ xs) = let rest = remove i xs in if j == i then xs else j ∷ rest

pub same-cases : (j i : ℕ) → (j ≡ i) × (same j i ≡ 1) ⊎ (j ≢ i) × (same j i ≡ 0)
unfolding same
same-cases j i = ground arith

pub count-append : (i : ℕ) (xs ys : List ℕ) → count i (xs ++ ys) ≡ count i xs + count i ys
unfolding count
count-append i [] ys = omega arith
count-append i (j ∷ xs) ys = omega (arith, count-append i xs ys)

pub count-remove : (i k : ℕ) (xs : List ℕ) → count i (remove k xs) ≡ count i xs - same k i
unfolding count remove same
count-remove i k [] = omega arith
count-remove i k (j ∷ xs) = ground (arith, count-remove i k xs)
