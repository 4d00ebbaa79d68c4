-- ===== src/OrderedSet/From.antt =====
-- `from`: sorting and removing repeated keys keeps, for each key, the first element that has it.
use moonbeam.Base.{ℕ, ◌≤◌, ◌≡◌, refl, ap, ◌∙◌, ◌≢◌, some, List, [], ◌∷◌, arith, ◌==◌, if◌then◌else◌}
use moonbeam.OrderedSet.{sort_insert, sort, dedup_after, dedup, from, find, Above, IsSorted}

module _ {A : Type 0} (key : A → ℕ) where
  -- In rising order, where keys may repeat.
  abbrev From : ℕ → List A → Type 0
  From n [] = Unit
  From n (x ∷ xs) = (n ≤ key x) × From (key x) xs

  abbrev IsRising : List A → Type 0
  IsRising [] = Unit
  IsRising (x ∷ xs) = From (key x) xs

  sort_insert-From :
      (v : A) (n : ℕ) (xs : List A) → From n xs → n ≤ key v → From n (sort_insert key v xs)
  unfolding sort_insert
  sort_insert-From v n [] h le = (le, tt)
  sort_insert-From v n (x ∷ xs) h le = ground (arith, sort_insert-From v (key x) xs h.1)

  sort_insert-IsRising : (v : A) (xs : List A) → IsRising xs → IsRising (sort_insert key v xs)
  unfolding sort_insert
  sort_insert-IsRising v [] h = tt
  sort_insert-IsRising v (x ∷ xs) h = ground (arith, sort_insert-From v (key x) xs h)

  sort-IsRising : (xs : List A) → IsRising (sort key xs)
  unfolding sort
  sort-IsRising [] = tt
  sort-IsRising (x ∷ xs) = sort_insert-IsRising x (sort key xs) (sort-IsRising xs)

  find-sort_insert :
      (v : A) (j : ℕ) (xs : List A)
      → find key j (sort_insert key v xs) ≡ (if key v == j then some v else find key j xs)
  unfolding sort_insert find
  find-sort_insert v j [] = refl
  find-sort_insert v j (x ∷ xs) = ground (arith, find-sort_insert v j xs)

  find-sort : (j : ℕ) (xs : List A) → find key j (sort key xs) ≡ find key j xs
  unfolding sort find
  find-sort j [] = refl
  find-sort j (x ∷ xs) = ground (arith, find-sort_insert x j (sort key xs), find-sort j xs)

  dedup_after-Above : (k : ℕ) (xs : List A) → From k xs → Above key k (dedup_after key k xs)
  unfolding dedup_after
  dedup_after-Above k [] h = tt
  dedup_after-Above k (x ∷ xs) h = ground (arith, dedup_after-Above (key x) xs h.1)

  find-dedup_after :
      (k j : ℕ) (xs : List A)
      → From k xs
      → k ≢ j
      → find key j (dedup_after key k xs) ≡ find key j xs
  unfolding dedup_after find
  find-dedup_after k j [] h ne = refl
  find-dedup_after k j (x ∷ xs) h ne = ground (arith, find-dedup_after (key x) j xs h.1)

  dedup-IsSorted : (xs : List A) → IsRising xs → IsSorted key (dedup key xs)
  unfolding dedup
  dedup-IsSorted [] h = tt
  dedup-IsSorted (x ∷ xs) h = dedup_after-Above (key x) xs h

  find-dedup : (j : ℕ) (xs : List A) → IsRising xs → find key j (dedup key xs) ≡ find key j xs
  unfolding dedup find
  find-dedup j [] h = refl
  find-dedup j (x ∷ xs) h = ground (arith, find-dedup_after (key x) j xs h)

  pub from-IsSorted : (xs : List A) → IsSorted key (from key xs)
  unfolding from
  from-IsSorted xs = dedup-IsSorted (sort key xs) (sort-IsRising xs)

  pub find-from : (j : ℕ) (xs : List A) → find key j (from key xs) ≡ find key j xs
  unfolding from
  find-from j xs = find-dedup j (sort key xs) (sort-IsRising xs) ∙ find-sort j xs

  sort_insert-least : (v : A) (xs : List A) → Above key (key v) xs → sort_insert key v xs ≡ v ∷ xs
  unfolding sort_insert
  sort_insert-least v [] h = refl
  sort_insert-least v (x ∷ xs) h = ground arith

  sort-Above : (n : ℕ) (xs : List A) → Above key n xs → sort key xs ≡ xs
  unfolding sort
  sort-Above n [] h = refl
  sort-Above n (x ∷ xs) h = rw (sort-Above (key x) xs h.1) (sort_insert-least x xs h.1)

  dedup_after_unchanged : (n : ℕ) (xs : List A) → Above key n xs → dedup_after key n xs ≡ xs
  unfolding dedup_after
  dedup_after_unchanged n [] h = refl
  dedup_after_unchanged n (x ∷ xs) h = ground (arith, dedup_after_unchanged (key x) xs h.1)

  -- A vector that is already an ordered set is left as it is.
  pub from_sorted : (xs : List A) → IsSorted key xs → from key xs ≡ xs
  unfolding from sort dedup
  from_sorted [] s = refl
  from_sorted (x ∷ xs) s =
      rw (sort-Above (key x) xs s, sort_insert-least x xs s)
        (ap (◌∷◌ x) (dedup_after_unchanged (key x) xs s))
