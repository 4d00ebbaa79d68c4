-- ===== src/Stake/Backing/Sums.antt =====
-- The sum of a list of bonds through the changes of one amount.
use moonbeam.Base.{
  ℕ, ◌+◌, ◌≤◌, ◌<◌, ◌≡◌, refl, sym, ap, ◌∙◌, Option, none, some, List, [], ◌∷◌, arith, ◌==◌,
  if◌then◌else◌, All,
}
use moonbeam.OrderedSet.{IsSorted, find}
use moonbeam.OrderedSet.Search.{Above-IsSorted, find_below}
use moonbeam.Stake.Types.{Bond, owner_of}
use moonbeam.Stake.Validator.{without}
use moonbeam.Stake.Validator.Bonds.{sum, amount_of, sum-without, without-IsSorted}
use moonbeam.Stake.Nominator.Swap.{find-without}
use moonbeam.Stake.Sides.{amount_for, Alters}
use moonbeam.Stake.Sides.Exits.{IsPositive}

abbrev pub or_zero : Option ℕ → ℕ
or_zero none = 0
or_zero (some a) = a

amount_of-or_zero : (k : ℕ) (xs : List Bond) → amount_of k xs ≡ or_zero (amount_for k xs)
unfolding amount_of find
amount_of-or_zero k [] = refl
amount_of-or_zero k (x ∷ xs) = ground (arith, amount_of-or_zero k xs)

amount_for_head : (x : Bond) (xs : List Bond) → amount_for x.owner (x ∷ xs) ≡ some x.amount
unfolding find
amount_for_head x xs = ground arith

amount_for_tail :
    (x : Bond) (xs : List Bond) (k : ℕ)
    → IsSorted owner_of (x ∷ xs)
    → amount_for k xs ≡ (if x.owner == k then none else amount_for k (x ∷ xs))
unfolding find
amount_for_tail x xs k s = ground (arith, find_below owner_of k x.owner xs s)

-- The owner of the first bond is the least one that has an amount.
head_least :
    (x y : Bond) (xs ys : List Bond)
    → IsSorted owner_of (x ∷ xs)
    → IsSorted owner_of (y ∷ ys)
    → ((k : ℕ) → amount_for k (x ∷ xs) ≡ amount_for k (y ∷ ys))
    → (x.owner ≡ y.owner) × (x.amount ≡ y.amount)
unfolding find
head_least x y xs ys s t h = ground (
  arith,
  h x.owner,
  h y.owner,
  find_below owner_of x.owner y.owner ys t,
  find_below owner_of y.owner x.owner xs s,
)

-- Two lists in order with the same amounts have the same sum.
sum_same :
    (xs ys : List Bond)
    → IsSorted owner_of xs
    → IsSorted owner_of ys
    → ((k : ℕ) → amount_for k xs ≡ amount_for k ys)
    → sum xs ≡ sum ys
unfolding sum find
sum_same [] [] s t h = refl
sum_same [] (y ∷ ys) s t h = absurd (ground (arith, h y.owner))
sum_same (x ∷ xs) [] s t h = absurd (ground (arith, h x.owner))
sum_same (x ∷ xs) (y ∷ ys) s t h =
    let (owners, amounts) = head_least x y xs ys s t h in
    omega (
      arith,
      amounts,
      sum_same xs ys (Above-IsSorted owner_of x.owner xs s) (Above-IsSorted owner_of y.owner ys t)
          (λ k. amount_for_tail x xs k s ∙ ground (arith, h k) ∙ sym (amount_for_tail y ys k t)),
    )

amount_for-without :
    (k j : ℕ) (xs : List Bond)
    → amount_for j (without k xs) ≡ (if k == j then none else amount_for j xs)
amount_for-without k j xs = ground (arith, find-without k j xs)

module _ (k : ℕ) (x : Option ℕ) (xs ys : List Bond) (s : IsSorted owner_of xs)
    (h : Alters k x xs ys) where
  -- To exchange the amount of one owner exchanges it in the sum.
  pub sum-Alters : sum ys + or_zero (amount_for k xs) ≡ sum xs + or_zero x
  sum-Alters =
      let rest : sum (without k ys) ≡ sum (without k xs) =
        sum_same (without k ys) (without k xs) (without-IsSorted k ys h.sorted)
          (without-IsSorted k xs s)
          (λ j.
            ground (arith, amount_for-without k j ys, amount_for-without k j xs, h.amounts j)) in
      let own : amount_for k ys ≡ x = h.amounts k ∙ ground arith in
      let ys_amount : amount_of k ys ≡ or_zero x = amount_of-or_zero k ys ∙ ap or_zero own in
      omega (
        arith,
        rest,
        ys_amount,
        amount_of-or_zero k xs,
        sum-without k ys h.sorted,
        sum-without k xs s,
      )

pub positive_at : (k a : ℕ) (xs : List Bond) → All IsPositive xs → amount_for k xs ≡ some a → 0 < a
unfolding find
positive_at k a [] p h = absurd (ground arith)
positive_at k a (x ∷ xs) p h = ground (arith, positive_at k a xs p.1, p.0)

all-IsPositive :
    (xs : List Bond)
    → IsSorted owner_of xs
    → ((k a : ℕ) → amount_for k xs ≡ some a → 0 < a)
    → All IsPositive xs
all-IsPositive [] s h = tt
all-IsPositive (x ∷ xs) s h = (
  h x.owner x.amount (amount_for_head x xs),
  all-IsPositive xs (Above-IsSorted owner_of x.owner xs s)
      (λ k a e. h k a (ground (arith, amount_for_tail x xs k s))),
)

pub IsPositive-Alters :
    (k : ℕ) (x : Option ℕ) (xs ys : List Bond)
    → All IsPositive xs
    → Alters k x xs ys
    → ((a : ℕ) → x ≡ some a → 0 < a)
    → All IsPositive ys
IsPositive-Alters k x xs ys p h new =
    all-IsPositive ys h.sorted λ j a e. ground (arith, h.amounts j, positive_at j a xs p, new a, e)

pub amount_for-le : (k a : ℕ) (xs : List Bond) → amount_for k xs ≡ some a → a ≤ sum xs
unfolding find sum
amount_for-le k a [] h = absurd (ground arith)
amount_for-le k a (x ∷ xs) h = ground (arith, amount_for-le k a xs)
