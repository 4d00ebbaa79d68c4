-- ===== src/OrderedSet/Refinement.antt =====
-- The contract of `OrderedSet<T>` in pallets/stake/src/set.rs: a sorted vector stands for the
-- finite map from keys to elements that `find` reads, and each operation is one of that map.
use moonbeam.Base.{
  ℕ, ◌≡◌, refl, Bool, Option, none, some, List, is_some, is_none, ◌==◌, if◌then◌else◌,
}
use moonbeam.OrderedSet.{insert, remove, contains, from, find, IsSorted}
use moonbeam.OrderedSet.Laws.{
  contains-find, insert_reports, insert-IsSorted, find-insert, remove_reports, remove-IsSorted,
  find-remove,
}
use moonbeam.OrderedSet.From.{from-IsSorted, find-from}

module _ {A : Type 0} (key : A → ℕ) where
  -- A vector with the flag that an operation returned, for a map given by its entries.
  pub record Refines (entries : ℕ → Option A) (flag : Bool) (r : List A × Bool) : Type 0 where
    pub sorted : IsSorted key r.0
    pub reports : r.1 ≡ flag
    pub holds : (j : ℕ) → find key j r.0 ≡ entries j

  -- On a sorted vector `insert` adds the value unless an equal one is there, which then stays, reports
  -- whether it added it, and keeps the order.
  pub insert-Refines :
      (v : A) (xs : List A)
      → IsSorted key xs
      → Refines
          (λ j.
            if is_some (find key (key v) xs)
            then find key j xs
            else (if key v == j then some v else find key j xs))
          (is_none (find key (key v) xs))
          (insert key v xs)
  insert-Refines v xs s = record {
    sorted = insert-IsSorted key v xs s;
    reports = insert_reports key v xs s;
    holds = λ j. find-insert key v j xs s;
  }

  -- On a sorted vector `remove` takes out the value that is equal and no other, reports whether there was
  -- one, and keeps the order.
  pub remove-Refines :
      (k : ℕ) (xs : List A)
      → IsSorted key xs
      → Refines
          (λ j. if k == j then none else find key j xs)
          (is_some (find key k xs))
          (remove key k xs)
  remove-Refines k xs s = record {
    sorted = remove-IsSorted key k xs s;
    reports = remove_reports key k xs s;
    holds = λ j. find-remove key k j xs s;
  }

  -- `from` sorts and deduplicates any vector: it has the first of the elements with each key. On
  -- what it returns `contains` tells whether the vector had the key.
  pub from-Refines :
      (k : ℕ) (xs : List A)
      → Refines
          (λ j. find key j xs)
          (is_some (find key k xs))
          (from key xs, contains key k (from key xs))
  from-Refines k xs = record {
    sorted = from-IsSorted key xs;
    reports =
        rw (contains-find key k (from key xs) (from-IsSorted key xs), find-from key k xs) refl;
    holds = λ j. find-from key j xs;
  }
