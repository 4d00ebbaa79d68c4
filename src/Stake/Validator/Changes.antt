-- ===== src/Stake/Validator/Changes.antt =====
-- What `update_nominator` and the loops of `inc_nominator` and `dec_nominator` do to lists of bonds.
use moonbeam.Base.{ℕ, ◌+◌, ◌^◌, ◌<◌, ◌≡◌, refl, List, [], ◌∷◌, arith, if◌then◌else◌, All, sub_u128}
use moonbeam.OrderedSet
use moonbeam.OrderedSet.{IsSorted, Above}
use moonbeam.OrderedSet.Search.{Above-IsSorted}
use moonbeam.OrderedSet.From.{from_sorted}
use moonbeam.Stake.Types.{Bond, owner_of}
use moonbeam.Stake.Validator.{with_amount, last_difference, change_first, lists}
use moonbeam.Stake.Validator.Bonds.{
  sum, amount_of, BondFits, Bonds, with_amount_below, last_difference_below,
}

module _ (k a : ℕ) where
  with_amount-Above :
      (n : ℕ) (xs : List Bond) → Above owner_of n xs → Above owner_of n (with_amount k a xs)
  unfolding with_amount
  with_amount-Above n [] h = tt
  with_amount-Above n (x ∷ xs) h = ground (arith, with_amount-Above x.owner xs h.1)

  with_amount-IsSorted :
      (xs : List Bond) → IsSorted owner_of xs → IsSorted owner_of (with_amount k a xs)
  unfolding with_amount
  with_amount-IsSorted [] s = tt
  with_amount-IsSorted (x ∷ xs) s = ground (arith, with_amount-Above x.owner xs s)

  with_amount-fits :
      (xs : List Bond) → a < 2 ^ 128 → All BondFits xs → All BondFits (with_amount k a xs)
  unfolding with_amount
  with_amount-fits [] p h = tt
  with_amount-fits (x ∷ xs) p h = ground (arith, with_amount-fits xs p h.1)

  sum-with_amount :
      (xs : List Bond)
      → IsSorted owner_of xs
      → sum (with_amount k a xs) + amount_of k xs ≡ sum xs + (if lists k xs then a else 0)
  unfolding with_amount sum amount_of lists
  sum-with_amount [] s = refl
  sum-with_amount (x ∷ xs) s = ground (
    arith,
    sum-with_amount xs (Above-IsSorted owner_of x.owner xs s),
    with_amount_below k x.owner a xs s,
  )

  -- To give an owner a new amount and rebuild the set exchanges the amounts in the sum.
  pub with_amount-Bonds :
      (xs : List Bond)
      → a < 2 ^ 128
      → Bonds xs
      → let ys = OrderedSet.from owner_of (with_amount k a xs) in
        Bonds ys × (sum ys + amount_of k xs ≡ sum xs + (if lists k xs then a else 0))
  with_amount-Bonds xs p h =
      let s = with_amount-IsSorted xs h.sorted in
      rw (from_sorted owner_of (with_amount k a xs) s)
        (record { sorted = s; fits = with_amount-fits xs p h.fits }, sum-with_amount xs h.sorted)

  -- The difference that `update_nominator` adds to the total.
  pub last_difference_lem :
      (d : ℕ) (xs : List Bond)
      → IsSorted owner_of xs
      → last_difference k a d xs ≡ (if lists k xs then sub_u128 a (amount_of k xs) else d)
  unfolding last_difference lists amount_of
  last_difference_lem d [] s = refl
  last_difference_lem d (x ∷ xs) s = ground (
    arith,
    last_difference_lem d xs (Above-IsSorted owner_of x.owner xs s),
    last_difference_below k x.owner a (sub_u128 a x.amount) xs s,
  )

module _ (k : ℕ) (f : ℕ → ℕ) where
  change_first-Above :
      (n : ℕ) (xs : List Bond) → Above owner_of n xs → Above owner_of n (change_first k f xs)
  unfolding change_first
  change_first-Above n [] h = tt
  change_first-Above n (x ∷ xs) h = ground (arith, change_first-Above x.owner xs h.1)

  change_first-fits :
      (xs : List Bond)
      → ((n : ℕ) → f n < 2 ^ 128)
      → All BondFits xs
      → All BondFits (change_first k f xs)
  unfolding change_first
  change_first-fits [] p h = tt
  change_first-fits (x ∷ xs) p h = ground (arith, p x.amount, change_first-fits xs p h.1)

  pub change_first-IsSorted :
      (xs : List Bond) → IsSorted owner_of xs → IsSorted owner_of (change_first k f xs)
  unfolding change_first
  change_first-IsSorted [] s = tt
  change_first-IsSorted (x ∷ xs) s = ground (arith, change_first-Above x.owner xs s)

  sum-change_first :
      (xs : List Bond)
      → sum (change_first k f xs) + amount_of k xs
        ≡ sum xs + (if lists k xs then f (amount_of k xs) else 0)
  unfolding change_first sum amount_of lists
  sum-change_first [] = refl
  sum-change_first (x ∷ xs) = ground (arith, sum-change_first xs)

  -- To change the bond of an owner exchanges its amounts in the sum.
  pub change_first-Bonds :
      (xs : List Bond)
      → ((n : ℕ) → f n < 2 ^ 128)
      → Bonds xs
      → Bonds (change_first k f xs)
        × (sum (change_first k f xs) + amount_of k xs
            ≡ sum xs + (if lists k xs then f (amount_of k xs) else 0))
  change_first-Bonds xs p h = (
    record { sorted = change_first-IsSorted xs h.sorted; fits = change_first-fits xs p h.fits },
    sum-change_first xs,
  )
