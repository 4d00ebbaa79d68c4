-- ===== src/OrderedSet.antt =====
-- `OrderedSet<T>` of pallets/stake/src/set.rs: a vector kept in order. `T: Ord` enters as the
-- number by which its values compare; the newtype around the vector is left off. The functions of
-- `Vec` that the type calls are those of the standard library.
pub mod Search
pub mod Laws
pub mod From
pub mod Refinement
mod Tests
use Prim.Native.Nat.{compare, Ordering}
use moonbeam.Base.{
  ℕ, zero, suc, ◌+◌, ◌-◌, ◌/◌, ◌<◌, Bool, true, false, Option, none, some, List, [], ◌∷◌, ltb, ◌==◌,
  if◌then◌else◌, get_elem?, length, insert_at, remove_at,
}

-- What `slice::binary_search` returns: `Ok(index)` or `Err(insertion point)`.
pub data SearchResult : Type 0 where
  found vacant : ℕ → SearchResult

module _ {A : Type 0} (key : A → ℕ) where
  -- The comparison of the element at an index with the searched key.
  unfoldable pub probe : ℕ → List A → ℕ → Ordering
  probe k xs i = elim (get_elem? xs i) [ none ↦ Ordering.gt | some x ↦ compare (key x) k ]

  -- `while size > 1` of the search; `base` and `size` are its variables.
  unfoldable pub search_loop : ℕ → ℕ → List A → ℕ → ℕ → ℕ
  search_loop zero k xs base size = base
  search_loop (suc fuel) k xs base size =
      let mid = base + size / 2 in
      let base' : ℕ = elim (probe k xs mid) [ Ordering.gt ↦ base | _ ↦ mid ] in
      let rest = search_loop fuel k xs base' (size - size / 2) in if ltb 1 size then rest else base

  -- The comparison after the loop.
  unfoldable pub search_end : ℕ → List A → ℕ → SearchResult
  search_end k xs base = elim (probe k xs base) [
    | Ordering.eq ↦ found base
    | Ordering.lt ↦ vacant (base + 1)
    | Ordering.gt ↦ vacant base
  ]

  unfoldable pub binary_search : ℕ → List A → SearchResult
  binary_search k [] = vacant 0
  binary_search k (x ∷ xs) =
      search_end k (x ∷ xs) (search_loop (length (x ∷ xs)) k (x ∷ xs) 0 (length (x ∷ xs)))

  unfoldable pub insert : A → List A → List A × Bool
  insert v xs = elim (binary_search (key v) xs) [
    | found loc ↦ (xs, false)
    | vacant loc ↦ (insert_at loc v xs, true)
  ]

  -- The source passes a value; only its key is read.
  unfoldable pub remove : ℕ → List A → List A × Bool
  remove k xs = elim (binary_search k xs) [
    | found loc ↦ (remove_at loc xs, true)
    | vacant loc ↦ (xs, false)
  ]

  unfoldable pub contains : ℕ → List A → Bool
  contains k xs = elim (binary_search k xs) [ found loc ↦ true | vacant loc ↦ false ]

  unfoldable pub clear : List A → List A
  clear xs = []

  -- One step of the stable `sort`: `v` goes before the first element that is greater or equal,
  -- since it stood before all of them.
  unfoldable pub sort_insert : A → List A → List A
  sort_insert v [] = v ∷ []
  sort_insert v (x ∷ xs) = if ltb (key x) (key v) then x ∷ sort_insert v xs else v ∷ x ∷ xs

  unfoldable pub sort : List A → List A
  sort [] = []
  sort (x ∷ xs) = sort_insert x (sort xs)

  -- `dedup`, behind an element that is kept.
  unfoldable pub dedup_after : ℕ → List A → List A
  dedup_after k [] = []
  dedup_after k (x ∷ xs) =
      let rest = dedup_after (key x) xs in if key x == k then rest else x ∷ rest

  unfoldable pub dedup : List A → List A
  unfolding dedup_after
  dedup [] = []
  dedup (x ∷ xs) = x ∷ dedup_after (key x) xs

  -- `OrderedSet::from`
  unfoldable pub from : List A → List A
  from xs = dedup (sort xs)

  -- The element with a key, by a scan: what the laws are stated with.
  unfoldable pub find : ℕ → List A → Option A
  find k [] = none
  find k (x ∷ xs) = if key x == k then some x else find k xs

  -- In strictly rising order of keys, all above a bound.
  abbrev pub Above : ℕ → List A → Type 0
  Above n [] = Unit
  Above n (x ∷ xs) = (n < key x) × Above (key x) xs

  abbrev pub IsSorted : List A → Type 0
  IsSorted [] = Unit
  IsSorted (x ∷ xs) = Above (key x) xs
