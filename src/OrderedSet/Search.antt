-- ===== src/OrderedSet/Search.antt =====
-- The binary search finds what a scan finds.
use Prim.Native.Nat.{Ordering}
use moonbeam.Base.{
  ℕ, zero, suc, ◌+◌, ◌-◌, ◌/◌, ◌≤◌, ◌<◌, ◌≡◌, refl, Bool, true, false, none, List, [], ◌∷◌, ◌&&◌,
  arith, ltb, ◌==◌, if◌then◌else◌, is_some, length,
}
use moonbeam.OrderedSet.{
  SearchResult, found, vacant, probe, search_loop, search_end, binary_search, find, Above, IsSorted,
}

module _ {A : Type 0} (key : A → ℕ) where
  -- How many keys stand below `k`, at the front.
  unfoldable pub rank : ℕ → List A → ℕ
  rank k [] = 0
  rank k (x ∷ xs) = if ltb (key x) k then suc (rank k xs) else 0

  abbrev pub is_member : ℕ → List A → Bool
  is_member k xs = is_some (find key k xs)

  pub find_below : (k n : ℕ) (xs : List A) → Above key n xs → k ≤ n → find key k xs ≡ none
  unfolding find
  find_below k n [] h le = refl
  find_below k n (x ∷ xs) h le = ground (arith, find_below k (key x) xs h.1)

  pub rank_below : (k n : ℕ) (xs : List A) → Above key n xs → k ≤ n → rank k xs ≡ 0
  unfolding rank
  rank_below k n [] h le = refl
  rank_below k n (x ∷ xs) h le = ground arith

  pub Above-IsSorted : (n : ℕ) (xs : List A) → Above key n xs → IsSorted key xs
  Above-IsSorted n [] h = tt
  Above-IsSorted n (x ∷ xs) h = h.1

  pub Above-weaken : (m n : ℕ) (xs : List A) → m ≤ n → Above key n xs → Above key m xs
  Above-weaken m n [] le h = tt
  Above-weaken m n (x ∷ xs) le h = (omega arith, h.1)

  pub rank-le : (k : ℕ) (xs : List A) → rank k xs ≤ length xs
  unfolding rank
  rank-le k [] = omega arith
  rank-le k (x ∷ xs) = ground (arith, rank-le k xs)

  pub rank-lt_of_member :
      (k : ℕ) (xs : List A) → IsSorted key xs → is_member k xs ≡ true → rank k xs < length xs
  unfolding rank find
  rank-lt_of_member k [] s m = cc
  rank-lt_of_member k (x ∷ xs) s m =
      ground (arith, rank-lt_of_member k xs (Above-IsSorted (key x) xs s))

  -- What a probe of a sorted vector says, against the rank.
  abbrev expected : ℕ → List A → ℕ → Ordering
  expected k xs i =
      if ltb i (rank k xs)
      then Ordering.lt
      else (if i == rank k xs && is_member k xs then Ordering.eq else Ordering.gt)

  Above-probe :
      (k n : ℕ) (xs : List A) (i : ℕ) → Above key n xs → k ≤ n → probe key k xs i ≡ Ordering.gt
  unfolding probe
  Above-probe k n [] i h le = refl
  Above-probe k n (x ∷ xs) zero h le = ground arith
  Above-probe k n (x ∷ xs) (suc i) h le = ground (arith, Above-probe k (key x) xs i h.1)

  probe-expected :
      (k : ℕ) (xs : List A) (i : ℕ) → IsSorted key xs → probe key k xs i ≡ expected k xs i
  unfolding probe rank find
  probe-expected k [] i s = ground arith
  probe-expected k (x ∷ xs) zero s =
      ground (arith, find_below k (key x) xs s, rank_below k (key x) xs s)
  probe-expected k (x ∷ xs) (suc i) s =
      ground
        (arith, probe-expected k xs i (Above-IsSorted (key x) xs s), Above-probe k (key x) xs i s)

  -- While the loop runs, the rank stays within the searched part.
  abbrev Inside : ℕ → ℕ → ℕ → Bool → Type 0
  Inside base size r true = (base ≤ r) × (r < base + size)
  Inside base size r false = (base ≤ r) × (r ≤ base + size)

  search_step :
      (base size r : ℕ) (m : Bool)
      → 1 < size
      → Inside base size r m
      → let mid = base + size / 2 in
        (mid < base + size)
        × ((r < mid) → Inside base (size - size / 2) r m)
        × ((mid < r) → Inside mid (size - size / 2) r m)
        × ((mid ≡ r) → Inside (elim m [ true ↦ mid | false ↦ base ]) (size - size / 2) r m)
  search_step base size r true h inside = ground arith
  search_step base size r false h inside = ground arith

  search_loop-Inside :
      (fuel k : ℕ) (xs : List A) (base size : ℕ)
      → IsSorted key xs
      → size ≤ fuel
      → 0 < size
      → Inside base size (rank k xs) (is_member k xs)
      → Inside (search_loop key fuel k xs base size) 1 (rank k xs) (is_member k xs)
  unfolding search_loop
  search_loop-Inside zero k xs base size s f p h = absurd (omega arith)
  search_loop-Inside (suc fuel) k xs base size s f p h = ground (
    arith,
    probe-expected k xs (base + size / 2) s,
    search_step base size (rank k xs) (is_member k xs),
    search_loop-Inside fuel k xs base (size - size / 2) s,
    search_loop-Inside fuel k xs (base + size / 2) (size - size / 2) s,
  )

  start-Inside :
      (k : ℕ) (xs : List A) → IsSorted key xs → Inside 0 (length xs) (rank k xs) (is_member k xs)
  start-Inside k xs s = ground (arith, rank-le k xs, rank-lt_of_member k xs s)

  -- What the search must return.
  abbrev pub located : ℕ → List A → SearchResult
  located k xs = if is_member k xs then found (rank k xs) else vacant (rank k xs)

  search_end-located :
      (k : ℕ) (xs : List A) (base : ℕ)
      → IsSorted key xs
      → Inside base 1 (rank k xs) (is_member k xs)
      → search_end key k xs base ≡ located k xs
  unfolding search_end
  search_end-located k xs base s h = ground (arith, probe-expected k xs base s)

  -- On a sorted vector the binary search returns the index of the element with the key, or the
  -- index at which it would keep the order.
  pub binary_search-located :
      (k : ℕ) (xs : List A) → IsSorted key xs → binary_search key k xs ≡ located k xs
  unfolding binary_search find rank
  binary_search-located k [] s = refl
  binary_search-located k (x ∷ xs) s = search_end-located k (x ∷ xs) _ s (
      search_loop-Inside (length (x ∷ xs)) k (x ∷ xs) 0 (length (x ∷ xs)) s (omega arith)
        (omega arith) (start-Inside k (x ∷ xs) s))
