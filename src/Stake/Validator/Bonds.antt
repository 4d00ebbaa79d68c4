-- ===== src/Stake/Validator/Bonds.antt =====
-- Lists of bonds: their sum, and what the loops of the staking pallet do to it. The lists are
-- ordered sets, so an owner has one bond at most.
use moonbeam.Base.{
  ℕ, zero, suc, ◌+◌, ◌^◌, ◌≤◌, ◌<◌, ◌≡◌, refl, false, List, [], ◌∷◌, arith, ◌==◌, if◌then◌else◌,
  is_some, insert_at, All, sub_u128,
}
use moonbeam.OrderedSet
use moonbeam.OrderedSet.{IsSorted, Above, find}
use moonbeam.OrderedSet.Search.{rank, Above-IsSorted, Above-weaken}
use moonbeam.OrderedSet.Laws.{insert_lem, insert-IsSorted}
use moonbeam.OrderedSet.From.{from_sorted}
use moonbeam.Stake.Types.{Bond, owner_of}
use moonbeam.Stake.Validator.{without, subtract_owned, with_amount, last_difference, lists}

unfoldable pub sum : List Bond → ℕ
sum [] = 0
sum (b ∷ bonds) = b.amount + sum bonds

abbrev pub BondFits : Bond → Type 0
BondFits b = b.amount < 2 ^ 128

-- The amount that an owner has in a list, 0 if it has none.
unfoldable pub amount_of : ℕ → List Bond → ℕ
amount_of owner [] = 0
amount_of owner (b ∷ bonds) = if b.owner == owner then b.amount else amount_of owner bonds

-- An ordered set of bonds whose amounts fit `u128`.
pub record Bonds (bonds : List Bond) : Type 0 where
  pub sorted : IsSorted owner_of bonds
  pub fits : All BondFits bonds

pub amount_of_below : (k n : ℕ) (xs : List Bond) → Above owner_of n xs → k ≤ n → amount_of k xs ≡ 0
unfolding amount_of
amount_of_below k n [] h le = refl
amount_of_below k n (x ∷ xs) h le = ground (arith, amount_of_below k x.owner xs h.1)

sum-insert_at : (i : ℕ) (v : Bond) (xs : List Bond) → sum (insert_at i v xs) ≡ sum xs + v.amount
unfolding sum
sum-insert_at zero v xs = omega arith
sum-insert_at (suc i) v [] = omega arith
sum-insert_at (suc i) v (x ∷ xs) = omega (arith, sum-insert_at i v xs)

All-insert_at :
    (i : ℕ) (v : Bond) (xs : List Bond)
    → BondFits v
    → All BondFits xs
    → All BondFits (insert_at i v xs)
All-insert_at zero v xs p h = (p, h)
All-insert_at (suc i) v [] p h = (p, tt)
All-insert_at (suc i) v (x ∷ xs) p h = (h.0, All-insert_at i v xs p h.1)

pub lists-find : (k : ℕ) (xs : List Bond) → lists k xs ≡ is_some (find owner_of k xs)
unfolding lists find
lists-find k [] = refl
lists-find k (x ∷ xs) = ground (arith, lists-find k xs)

-- A new bond adds its amount to the sum.
pub insert-Bonds :
    (v : Bond) (xs : List Bond)
    → Bonds xs
    → BondFits v
    → lists v.owner xs ≡ false
    → let ys = (OrderedSet.insert owner_of v xs).0 in Bonds ys × (sum ys ≡ sum xs + v.amount)
insert-Bonds v xs h p absent =
    let put : (OrderedSet.insert owner_of v xs).0 ≡ insert_at (rank owner_of v.owner xs) v xs =
      ground (arith, insert_lem owner_of v xs h.sorted, lists-find v.owner xs) in
    (
      record {
        sorted = insert-IsSorted owner_of v xs h.sorted;
        fits = rw put (All-insert_at (rank owner_of v.owner xs) v xs p h.fits);
      },
      rw put (sum-insert_at (rank owner_of v.owner xs) v xs),
    )

-- Behind a bond with a higher owner the loops find nothing.
pub lists_below : (k n : ℕ) (xs : List Bond) → Above owner_of n xs → k ≤ n → lists k xs ≡ false
unfolding lists
lists_below k n [] h le = refl
lists_below k n (x ∷ xs) h le = ground (arith, lists_below k x.owner xs h.1)

without_below : (k n : ℕ) (xs : List Bond) → Above owner_of n xs → k ≤ n → without k xs ≡ xs
unfolding without
without_below k n [] h le = refl
without_below k n (x ∷ xs) h le = ground (arith, without_below k x.owner xs h.1)

subtract_owned_below :
    (k n t : ℕ) (xs : List Bond) → Above owner_of n xs → k ≤ n → subtract_owned k t xs ≡ t
unfolding subtract_owned
subtract_owned_below k n t [] h le = refl
subtract_owned_below k n t (x ∷ xs) h le = ground (arith, subtract_owned_below k x.owner t xs h.1)

pub with_amount_below :
    (k n a : ℕ) (xs : List Bond) → Above owner_of n xs → k ≤ n → with_amount k a xs ≡ xs
unfolding with_amount
with_amount_below k n a [] h le = refl
with_amount_below k n a (x ∷ xs) h le = ground (arith, with_amount_below k x.owner a xs h.1)

pub last_difference_below :
    (k n a d : ℕ) (xs : List Bond) → Above owner_of n xs → k ≤ n → last_difference k a d xs ≡ d
unfolding last_difference
last_difference_below k n a d [] h le = refl
last_difference_below k n a d (x ∷ xs) h le =
    ground (arith, last_difference_below k x.owner a d xs h.1)

pub amount_of-fits : (k : ℕ) (xs : List Bond) → All BondFits xs → amount_of k xs < 2 ^ 128
unfolding amount_of
amount_of-fits k [] h = omega arith
amount_of-fits k (x ∷ xs) h = ground (arith, amount_of-fits k xs h.1)

module _ (k : ℕ) where
  without-Above : (n : ℕ) (xs : List Bond) → Above owner_of n xs → Above owner_of n (without k xs)
  unfolding without
  without-Above n [] h = tt
  without-Above n (x ∷ xs) h =
      ground (arith, without-Above x.owner xs h.1, Above-weaken owner_of n x.owner (without k xs))

  pub without-IsSorted : (xs : List Bond) → IsSorted owner_of xs → IsSorted owner_of (without k xs)
  unfolding without
  without-IsSorted [] s = tt
  without-IsSorted (x ∷ xs) s =
      ground (arith, without-Above x.owner xs s, Above-IsSorted owner_of x.owner (without k xs))

  without-fits : (xs : List Bond) → All BondFits xs → All BondFits (without k xs)
  unfolding without
  without-fits [] h = tt
  without-fits (x ∷ xs) h = ground (arith, without-fits xs h.1)

  pub sum-without :
      (xs : List Bond) → IsSorted owner_of xs → sum (without k xs) + amount_of k xs ≡ sum xs
  unfolding without sum amount_of
  sum-without [] s = refl
  sum-without (x ∷ xs) s =
      ground
        (arith, sum-without xs (Above-IsSorted owner_of x.owner xs s), without_below k x.owner xs s)

  -- To drop an owner's bonds and rebuild the set takes its amount off the sum.
  pub without-Bonds :
      (xs : List Bond)
      → Bonds xs
      → let ys = OrderedSet.from owner_of (without k xs) in
        Bonds ys × (sum ys + amount_of k xs ≡ sum xs)
  without-Bonds xs h =
      let s = without-IsSorted xs h.sorted in
      rw (from_sorted owner_of (without k xs) s)
        (record { sorted = s; fits = without-fits xs h.fits }, sum-without xs h.sorted)

  -- The total that `rm_nominator` computes.
  pub subtract_owned_lem :
      (t : ℕ) (xs : List Bond)
      → IsSorted owner_of xs
      → subtract_owned k t xs ≡ (if lists k xs then sub_u128 t (amount_of k xs) else t)
  unfolding subtract_owned lists amount_of
  subtract_owned_lem t [] s = refl
  subtract_owned_lem t (x ∷ xs) s = ground (
    arith,
    subtract_owned_lem t xs (Above-IsSorted owner_of x.owner xs s),
    subtract_owned_below k x.owner (sub_u128 t x.amount) xs s,
  )
