-- ===== src/Object/Names.antt =====
-- Names as their bytes, in the order of `std::string`'s `<`.
use sdbus_cpp.Prelude.{
  ℕ, Bool, true, false, List, [], ◌∷◌, ◌≡◌, refl, arith, ltb, ◌==◌, ◌&&◌, if◌then◌else◌,
}

abbrev pub Name : Type 0
Name = List ℕ

unfoldable pub name_lt : Name → Name → Bool
name_lt xs [] = false
name_lt [] (y ∷ ys) = true
name_lt (x ∷ xs) (y ∷ ys) = if ltb x y then true else if ltb y x then false else name_lt xs ys

unfoldable pub name_eq : Name → Name → Bool
name_eq [] [] = true
name_eq [] (y ∷ ys) = false
name_eq (x ∷ xs) [] = false
name_eq (x ∷ xs) (y ∷ ys) = x == y && name_eq xs ys

pub name_eq-eq : (a b : Name) → name_eq a b ≡ true → a ≡ b
unfolding name_eq
name_eq-eq [] [] h = refl
name_eq-eq [] (y ∷ ys) h = cc
name_eq-eq (x ∷ xs) [] h = cc
name_eq-eq (x ∷ xs) (y ∷ ys) h = ground (arith, name_eq-eq xs ys)

pub name_eq_self : (a : Name) → name_eq a a ≡ true
unfolding name_eq
name_eq_self [] = refl
name_eq_self (x ∷ xs) = ground (arith, name_eq_self xs)

pub name_lt_irrefl : (a : Name) → name_lt a a ≡ false
unfolding name_lt
name_lt_irrefl [] = refl
name_lt_irrefl (x ∷ xs) = ground (arith, name_lt_irrefl xs)

pub name_lt_asymm : (a b : Name) → name_lt a b ≡ true → name_lt b a ≡ false
unfolding name_lt
name_lt_asymm [] [] h = refl
name_lt_asymm (x ∷ xs) [] h = cc
name_lt_asymm [] (y ∷ ys) h = refl
name_lt_asymm (x ∷ xs) (y ∷ ys) h = ground (arith, name_lt_asymm xs ys)

pub name_lt_antisymm : (a b : Name) → name_lt a b ≡ false → name_lt b a ≡ false → a ≡ b
unfolding name_lt
name_lt_antisymm [] [] h k = refl
name_lt_antisymm (x ∷ xs) [] h k = cc
name_lt_antisymm [] (y ∷ ys) h k = cc
name_lt_antisymm (x ∷ xs) (y ∷ ys) h k = ground (arith, name_lt_antisymm xs ys)

-- What is below `c` bounds what is not above it.
pub name_lt_mono : (a b c : Name) → name_lt a b ≡ false → name_lt a c ≡ true → name_lt b c ≡ true
unfolding name_lt
name_lt_mono a b [] h k = cc
name_lt_mono a [] (z ∷ zs) h k = refl
name_lt_mono [] (y ∷ ys) (z ∷ zs) h k = cc
name_lt_mono (x ∷ xs) (y ∷ ys) (z ∷ zs) h k = ground (arith, name_lt_mono xs ys zs)
