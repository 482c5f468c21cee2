-- ===== src/Object/Search.antt =====
-- Arrays of records sorted by name, and the binary search in them: `std::sort` and `findMethod`,
-- `findProperty` of src/Object.cpp over any record with a name.
use sdbus_cpp.Prelude.{
  ℕ, zero, suc, ◌+◌, ◌-◌, ◌/◌, false, Option, none, some, List, [], ◌∷◌, ◌≡◌, ◌⊎◌, inl, inr, arith,
  All, length, get_elem?, Bool-cases, if◌then◌else◌,
}
use sdbus_cpp.Object.Names.{Name, name_lt, name_eq, name_lt_asymm, name_lt_mono}

abbrev pub Contains : {A : Type 0} → A → List A → Type 0
Contains a [] = ⊥
Contains a (x ∷ xs) = (a ≡ x) ⊎ Contains a xs

module _ {A : Type 0} (name : A → Name) where
  insert_sorted : A → List A → List A
  insert_sorted x [] = x ∷ []
  insert_sorted x (y ∷ ys) =
      let rest = insert_sorted x ys in if name_lt (name y) (name x) then y ∷ rest else x ∷ y ∷ ys

  -- `std::sort` by name. (C++ leaves the order of records with one name open.)
  unfoldable pub sort_by_name : List A → List A
  unfolding insert_sorted
  sort_by_name [] = []
  sort_by_name (x ∷ xs) = insert_sorted x (sort_by_name xs)

  -- `std::lower_bound`: the position of the first record whose name is not below the given one,
  -- among the `count` records from position `first`.
  unfoldable pub lower_bound : ℕ → List A → ℕ → ℕ → Name → ℕ
  lower_bound zero xs first count n = first
  lower_bound (suc fuel) xs first zero n = first
  lower_bound (suc fuel) xs first (suc c) n =
      let step = suc c / 2 in
      let upper = lower_bound fuel xs (first + step + 1) (suc c - (step + 1)) n in
      let lower = lower_bound fuel xs first step n in
      elim (get_elem? xs (first + step)) [
        | none ↦ lower
        | some x ↦ if name_lt (name x) n then upper else lower
      ]

  -- `it != end && it->name == name ? &*it : nullptr`
  unfoldable pub found_at : List A → ℕ → Name → Option A
  found_at xs i n = elim (get_elem? xs i) [
    | none ↦ none
    | some x ↦ if name_eq (name x) n then some x else none
  ]

  unfoldable pub find_by_name : List A → Name → Option A
  unfolding lower_bound found_at
  find_by_name xs n = found_at xs (lower_bound (length xs) xs 0 (length xs) n) n

  abbrev pub IsSorted : List A → Type 0
  IsSorted [] = Unit
  IsSorted (x ∷ xs) = All (λ y. name_lt (name y) (name x) ≡ false) xs × IsSorted xs

  All-below :
      (x y : A) (zs : List A)
      → name_lt (name y) (name x) ≡ false
      → All (λ z. name_lt (name z) (name y) ≡ false) zs
      → All (λ z. name_lt (name z) (name x) ≡ false) zs
  All-below x y [] h all = tt
  All-below x y (z ∷ zs) h all =
      (ground (arith, name_lt_mono (name z) (name y) (name x), all.0), All-below x y zs h all.1)

  All-insert : (P : A → Type 0) (x : A) (ys : List A) → P x → All P ys → All P (insert_sorted x ys)
  unfolding insert_sorted
  All-insert P x [] p all = (p, tt)
  All-insert P x (y ∷ ys) p all = elim (Bool-cases (name_lt (name y) (name x))) [
    | inl e ↦ rw e (all.0, All-insert P x ys p all.1)
    | inr e ↦ rw e (p, all)
  ]

  insert_sorted-IsSorted : (x : A) (ys : List A) → IsSorted ys → IsSorted (insert_sorted x ys)
  unfolding insert_sorted
  insert_sorted-IsSorted x [] h = (tt, tt)
  insert_sorted-IsSorted x (y ∷ ys) h = elim (Bool-cases (name_lt (name y) (name x))) [
    | inl e ↦
        rw e (
          All-insert _ x ys (name_lt_asymm (name y) (name x) e) h.0,
          insert_sorted-IsSorted x ys h.1,
        )
    | inr e ↦ rw e ((e, All-below x y ys e h.0), h)
  ]

  pub sort_by_name-IsSorted : (xs : List A) → IsSorted (sort_by_name xs)
  unfolding sort_by_name
  sort_by_name-IsSorted [] = tt
  sort_by_name-IsSorted (x ∷ xs) = insert_sorted-IsSorted x _ (sort_by_name-IsSorted xs)

  Contains-insert :
      (a x : A) (ys : List A)
      → (Contains a (insert_sorted x ys) → (a ≡ x) ⊎ Contains a ys)
        × ((a ≡ x) ⊎ Contains a ys → Contains a (insert_sorted x ys))
  unfolding insert_sorted
  Contains-insert a x [] = ((λ h. h), λ h. h)
  Contains-insert a x (y ∷ ys) = elim (Bool-cases (name_lt (name y) (name x))) [
    | inl e ↦ rw e (
      (elim [
        | inl h ↦ inr (inl h)
        | inr h ↦ (elim ((Contains-insert a x ys).0 h) [ inl k ↦ inl k | inr k ↦ inr (inr k) ])
      ]),
      (elim [
        | inl h ↦ inr ((Contains-insert a x ys).1 (inl h))
        | inr (inl h) ↦ inl h
        | inr (inr h) ↦ inr ((Contains-insert a x ys).1 (inr h))
      ]),
    )
    | inr e ↦ rw e ((λ h. h), λ h. h)
  ]

  pub Contains-sort :
      (a : A) (xs : List A)
      → (Contains a (sort_by_name xs) → Contains a xs)
        × (Contains a xs → Contains a (sort_by_name xs))
  unfolding sort_by_name
  Contains-sort a [] = ((λ h. h), λ h. h)
  Contains-sort a (x ∷ xs) =
      let (into, back) = Contains-insert a x (sort_by_name xs) in
      let (out, up) = Contains-sort a xs in
      (
        (λ h. elim (into h) [ inl e ↦ inl e | inr k ↦ inr (out k) ]),
        (elim [ inl e ↦ back (inl e) | inr k ↦ back (inr (up k)) ]),
      )
