-- ===== src/Connection/Counter.antt =====
-- An event descriptor as the counter that it is: for the tests.
use sdbus_cpp.Prelude.{ℕ, zero, suc, ℤ, pos, negsuc, is_neg, Bool, true, false, ◌≡◌, refl}

abbrev pub read_counter : ℕ → ℤ × ℕ
read_counter zero = (negsuc 10, 0)
read_counter (suc n) = (pos 0, 0)

abbrev pub is_counted : ℕ → Bool
is_counted zero = false
is_counted (suc n) = true

pub read_counter-ok : (n : ℕ) → is_counted n ≡ true → is_neg (read_counter n).0 ≡ false
read_counter-ok zero h = cc
read_counter-ok (suc n) h = refl

pub read_counter-clears : (n : ℕ) → is_counted n ≡ true → is_counted (read_counter n).1 ≡ false
read_counter-clears zero h = refl
read_counter-clears (suc n) h = refl
