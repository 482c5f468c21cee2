-- ===== src/Object/Find.antt =====
-- The binary search finds a record of a sorted array by its name exactly when there is one.
use sdbus_cpp.Prelude.{
  ℕ, zero, suc, ◌+◌, ◌-◌, ◌/◌, ◌≤◌, ◌<◌, true, false, none, some, List, [], ◌∷◌, ◌≡◌, refl, ap, sym,
  subst, inl, inr, arith, All, length, get_elem?, Bool-cases, dec_lt, Option-cases,
}
use sdbus_cpp.Object.Names.{
  Name, name_lt, name_eq, name_eq-eq, name_eq_self, name_lt_irrefl, name_lt_mono, name_lt_antisymm,
}
use sdbus_cpp.Object.Search.{Contains, IsSorted, lower_bound, found_at, find_by_name}

get_elem?-All :
    {A : Type 0} (P : A → Type 0) (xs : List A) (i : ℕ) (x : A)
    → All P xs
    → get_elem? xs i ≡ some x
    → P x
get_elem?-All P [] i x all h = cc
get_elem?-All P (y ∷ ys) zero x all h = subst P (ground arith) all.0
get_elem?-All P (y ∷ ys) (suc i) x all h = get_elem?-All P ys i x all.1 h

get_elem?-Contains :
    {A : Type 0} (xs : List A) (i : ℕ) (x : A) → get_elem? xs i ≡ some x → Contains x xs
get_elem?-Contains [] i x h = cc
get_elem?-Contains (y ∷ ys) zero x h = inl (ground arith)
get_elem?-Contains (y ∷ ys) (suc i) x h = inr (get_elem?-Contains ys i x h)

Contains-get_elem? :
    {A : Type 0} (xs : List A) (x : A) → Contains x xs → (i : ℕ) × (get_elem? xs i ≡ some x)
Contains-get_elem? [] x h = absurd h
Contains-get_elem? (y ∷ ys) x (inl e) = (0, ap some (sym e))
Contains-get_elem? (y ∷ ys) x (inr h) = let (i, e) = Contains-get_elem? ys x h in (suc i, e)

get_elem?_below :
    {A : Type 0} (xs : List A) (i : ℕ) → i < length xs → (x : A) × (get_elem? xs i ≡ some x)
get_elem?_below [] i h = absurd (omega arith)
get_elem?_below (x ∷ xs) zero h = (x, refl)
get_elem?_below (x ∷ xs) (suc i) h = get_elem?_below xs i (omega arith)

length_above : {A : Type 0} (xs : List A) (i : ℕ) (x : A) → get_elem? xs i ≡ some x → i < length xs
length_above [] i x h = cc
length_above (y ∷ ys) zero x h = omega arith
length_above (y ∷ ys) (suc i) x h = omega (arith, length_above ys i x h)

module _ {A : Type 0} (name : A → Name) where
  sorted_mono :
      (xs : List A) (i j : ℕ) (x y : A)
      → IsSorted name xs
      → i ≤ j
      → get_elem? xs i ≡ some x
      → get_elem? xs j ≡ some y
      → name_lt (name y) (name x) ≡ false
  sorted_mono [] i j x y s h p q = cc
  sorted_mono (z ∷ zs) zero zero x y s h p q =
      let e : x ≡ y = ground arith in rw e (name_lt_irrefl (name y))
  sorted_mono (z ∷ zs) zero (suc j) x y s h p q =
      let e : z ≡ x = ground arith in
      rw (← e) (get_elem?-All (λ w. name_lt (name w) (name z) ≡ false) zs j y s.0 q)
  sorted_mono (z ∷ zs) (suc i) zero x y s h p q = absurd (omega arith)
  sorted_mono (z ∷ zs) (suc i) (suc j) x y s h p q = sorted_mono zs i j x y s.1 (omega arith) p q

  module _ (xs : List A) (n : Name) where
    -- The records before the position are below the name; those from it on are not.
    abbrev pub Before : ℕ → Type 0
    Before i = (j : ℕ) (x : A) → j < i → get_elem? xs j ≡ some x → name_lt (name x) n ≡ true

    abbrev pub After : ℕ → Type 0
    After i = (j : ℕ) (x : A) → i ≤ j → get_elem? xs j ≡ some x → name_lt (name x) n ≡ false

    Before-step :
        (i : ℕ) (x : A)
        → IsSorted name xs
        → get_elem? xs i ≡ some x
        → name_lt (name x) n ≡ true
        → Before (i + 1)
    Before-step i x s here below j y h at =
        name_lt_mono (name x) (name y) n (sorted_mono xs j i y x s (omega arith) at here) below

    After-step :
        (i : ℕ) (x : A)
        → IsSorted name xs
        → get_elem? xs i ≡ some x
        → name_lt (name x) n ≡ false
        → After i
    After-step i x s here above j y h at = elim (Bool-cases (name_lt (name y) n)) [
      | inr e ↦ e
      | inl e ↦
          let below = name_lt_mono (name y) (name x) n (sorted_mono xs i j x y s h here at) e in cc
    ]

    lower_bound_lem :
        (fuel first count : ℕ)
        → IsSorted name xs
        → count ≤ fuel
        → first + count ≤ length xs
        → Before first
        → After (first + count)
        → let r = lower_bound name fuel xs first count n in Before r × After r
    unfolding lower_bound
    lower_bound_lem zero first count s f l b a = (b, λ j x h. a j x (omega arith))
    lower_bound_lem (suc fuel) first zero s f l b a = (b, λ j x h. a j x (omega arith))
    lower_bound_lem (suc fuel) first (suc c) s f l b a =
        let step = suc c / 2 in
        let (x, here) = get_elem?_below xs (first + step) (omega arith) in
        elim (Bool-cases (name_lt (name x) n)) [
          | inl e ↦
              rw (here, lower_bound, e)
                (lower_bound_lem fuel (first + step + 1) (suc c - (step + 1)) s (omega arith)
                  (omega arith) (Before-step (first + step) x s here e)
                  (λ j y h. a j y (omega arith)))
          | inr e ↦
              rw (here, lower_bound, e)
                (lower_bound_lem fuel first step s (omega arith) (omega arith) b
                  (After-step (first + step) x s here e))
        ]

    found_at_sound :
        (i : ℕ) (x : A)
        → found_at name xs i n ≡ some x
        → (get_elem? xs i ≡ some x) × (name_eq (name x) n ≡ true)
    unfolding found_at
    found_at_sound i x h = elim (Option-cases (get_elem? xs i)) [
      | inl e ↦ let no : none ≡ some x = rw (e, found_at) at h in cc
      | inr (y, e) ↦ elim (Bool-cases (name_eq (name y) n)) [
        | inl same ↦ ground arith
        | inr other ↦ ground arith
      ]
    ]

    -- What the search finds is in the array and has the name.
    pub find_by_name_sound :
        (x : A) → find_by_name name xs n ≡ some x → Contains x xs × (name x ≡ n)
    unfolding find_by_name
    find_by_name_sound x h =
        let (at, same) = found_at_sound (lower_bound name (length xs) xs 0 (length xs) n) x h in
        (get_elem?-Contains xs _ x at, name_eq-eq (name x) n same)

    found_at_complete :
        (i : ℕ) (x : A) → get_elem? xs i ≡ some x → name x ≡ n → found_at name xs i n ≡ some x
    unfolding found_at
    found_at_complete i x at e = rw (at, found_at, e, name_eq_self n)

    -- In a sorted array the search finds a record of every name that is there.
    pub find_by_name_complete :
        (x : A)
        → IsSorted name xs
        → Contains x xs
        → name x ≡ n
        → (y : A) × (find_by_name name xs n ≡ some y)
    unfolding find_by_name
    find_by_name_complete x s h e =
        let r = lower_bound name (length xs) xs 0 (length xs) n in
        let (before, after) =
          lower_bound_lem (length xs) 0 (length xs) s (omega arith) (omega arith)
            (λ j y below. absurd (omega arith))
            (λ j y above at. absurd (omega (arith, length_above xs j y at))) in
        let (j, at) = Contains-get_elem? xs x h in
        let above : r ≤ j = elim (dec_lt j r) [
          | yes p ↦
              let below : name_lt n n ≡ true = rw e at (before j x p at) in
              let self = name_lt_irrefl n in cc
          | no p ↦ omega arith
        ] in
        let (y, here) = get_elem?_below xs r (omega (arith, length_above xs j x at)) in
        let same : name y ≡ n =
          name_lt_antisymm (name y) n (after r y (omega arith) here)
            (rw e at (sorted_mono xs r j y x s above here at)) in
        (y, found_at_complete r y here same)
