-- ===== src/OrderedSet/Laws.antt =====
-- `insert`, `remove` and `contains` against a scan of the vector, and the order that they keep.
use moonbeam.Base.{
  ℕ, ◌<◌, ◌≡◌, refl, true, false, none, some, List, [], ◌∷◌, arith, ◌==◌, if◌then◌else◌, is_some,
  is_none, insert_at, remove_at, inl, inr, Bool-cases,
}
use moonbeam.OrderedSet.{insert, remove, contains, find, Above, IsSorted}
use moonbeam.OrderedSet.Search.{
  rank, is_member, binary_search-located, find_below, Above-IsSorted, Above-weaken,
}

module _ {A : Type 0} (key : A → ℕ) where
  insert_at-Above :
      (v : A) (n : ℕ) (xs : List A)
      → Above key n xs
      → n < key v
      → is_member key (key v) xs ≡ false
      → Above key n (insert_at (rank key (key v) xs) v xs)
  unfolding rank find
  insert_at-Above v n [] h lt m = (lt, tt)
  insert_at-Above v n (x ∷ xs) h lt m = ground (arith, insert_at-Above v (key x) xs h.1)

  insert_at-IsSorted :
      (v : A) (xs : List A)
      → IsSorted key xs
      → is_member key (key v) xs ≡ false
      → IsSorted key (insert_at (rank key (key v) xs) v xs)
  unfolding rank find
  insert_at-IsSorted v [] s m = tt
  insert_at-IsSorted v (x ∷ xs) s m = ground (arith, insert_at-Above v (key x) xs s)

  find-insert_at :
      (v : A) (j : ℕ) (xs : List A)
      → is_member key (key v) xs ≡ false
      → find key j (insert_at (rank key (key v) xs) v xs)
        ≡ (if key v == j then some v else find key j xs)
  unfolding rank find
  find-insert_at v j [] m = refl
  find-insert_at v j (x ∷ xs) m = ground (arith, find-insert_at v j xs)

  remove_at-Above :
      (k n : ℕ) (xs : List A) → Above key n xs → Above key n (remove_at (rank key k xs) xs)
  unfolding rank
  remove_at-Above k n [] h = tt
  remove_at-Above k n (x ∷ xs) h =
      ground (arith, remove_at-Above k (key x) xs h.1, Above-weaken key n (key x) xs)

  remove_at-IsSorted :
      (k : ℕ) (xs : List A) → IsSorted key xs → IsSorted key (remove_at (rank key k xs) xs)
  unfolding rank
  remove_at-IsSorted k [] s = tt
  remove_at-IsSorted k (x ∷ xs) s =
      ground (arith, remove_at-Above k (key x) xs s, Above-IsSorted key (key x) xs s)

  find-remove_at :
      (k j : ℕ) (xs : List A)
      → IsSorted key xs
      → is_member key k xs ≡ true
      → find key j (remove_at (rank key k xs) xs) ≡ (if k == j then none else find key j xs)
  unfolding rank find
  find-remove_at k j [] s m = cc
  find-remove_at k j (x ∷ xs) s m = ground (
    arith,
    find-remove_at k j xs (Above-IsSorted key (key x) xs s),
    find_below key k (key x) xs s,
  )

  -- `contains` answers exactly whether a scan finds the key.
  pub contains-find :
      (k : ℕ) (xs : List A) → IsSorted key xs → contains key k xs ≡ is_some (find key k xs)
  unfolding contains
  contains-find k xs s = ground (arith, binary_search-located key k xs s)

  -- `insert` reports whether the key was absent.
  pub insert_reports :
      (v : A) (xs : List A) → IsSorted key xs → (insert key v xs).1 ≡ is_none (find key (key v) xs)
  unfolding insert
  insert_reports v xs s = ground (arith, binary_search-located key (key v) xs s)

  pub insert-IsSorted : (v : A) (xs : List A) → IsSorted key xs → IsSorted key (insert key v xs).0
  unfolding insert
  insert-IsSorted v xs s =
      ground (arith, binary_search-located key (key v) xs s, insert_at-IsSorted v xs s)

  -- An element that is there stays as it was; otherwise the new one is added.
  pub find-insert :
      (v : A) (j : ℕ) (xs : List A)
      → IsSorted key xs
      → find key j (insert key v xs).0 ≡ (
          if is_some (find key (key v) xs)
          then find key j xs
          else (if key v == j then some v else find key j xs))
  unfolding insert
  find-insert v j xs s =
      ground (arith, binary_search-located key (key v) xs s, find-insert_at v j xs)

  pub remove_reports :
      (k : ℕ) (xs : List A) → IsSorted key xs → (remove key k xs).1 ≡ is_some (find key k xs)
  unfolding remove
  remove_reports k xs s = ground (arith, binary_search-located key k xs s)

  pub remove-IsSorted : (k : ℕ) (xs : List A) → IsSorted key xs → IsSorted key (remove key k xs).0
  unfolding remove
  remove-IsSorted k xs s =
      ground (arith, binary_search-located key k xs s, remove_at-IsSorted k xs s)

  pub find-remove :
      (k j : ℕ) (xs : List A)
      → IsSorted key xs
      → find key j (remove key k xs).0 ≡ (if k == j then none else find key j xs)
  unfolding remove
  find-remove k j xs s = elim (Bool-cases (is_member key k xs)) [
    | inl m ↦ ground (arith, binary_search-located key k xs s, find-remove_at k j xs s)
    | inr m ↦ ground (arith, binary_search-located key k xs s)
  ]

  pub remove_unchanged :
      (k : ℕ) (xs : List A) → (remove key k xs).1 ≡ false → (remove key k xs).0 ≡ xs
  unfolding remove
  remove_unchanged k xs h = ground arith

  -- The vector after an `insert`.
  pub insert_lem :
      (v : A) (xs : List A)
      → IsSorted key xs
      → (insert key v xs).0
        ≡ (if is_some (find key (key v) xs) then xs else insert_at (rank key (key v) xs) v xs)
  unfolding insert
  insert_lem v xs s = ground (arith, binary_search-located key (key v) xs s)
