-- ===== src/Stake/Sides/Amounts.antt =====
-- The amounts in lists of bonds through the loops of pallets/stake/src/lib.rs.
use moonbeam.Base.{
  ℕ, ◌≡◌, refl, true, Option, none, some, List, [], ◌∷◌, arith, ◌==◌, if◌then◌else◌,
}
use moonbeam.OrderedSet
use moonbeam.OrderedSet.{IsSorted, find}
use moonbeam.OrderedSet.Laws.{find-insert, insert_reports}
use moonbeam.OrderedSet.From.{find-from}
use moonbeam.Stake.Types.{Bond, owner_of}
use moonbeam.Stake.Validator.{without, change_first}
use moonbeam.Stake.Nominator.{first_amount}
use moonbeam.Stake.Nominator.Swap.{find-without}
use moonbeam.Stake.Sides.{amount_for}

abbrev pub changed : (ℕ → ℕ) → Option ℕ → Option ℕ
changed f none = none
changed f (some a) = some (f a)

pub first_amount-amount_for : (k : ℕ) (xs : List Bond) → first_amount k xs ≡ amount_for k xs
unfolding first_amount find
first_amount-amount_for k [] = refl
first_amount-amount_for k (x ∷ xs) = ground (arith, first_amount-amount_for k xs)

pub amount_for-change_first :
    (k j : ℕ) (f : ℕ → ℕ) (xs : List Bond)
    → amount_for j (change_first k f xs)
      ≡ (if k == j then changed f (amount_for j xs) else amount_for j xs)
unfolding change_first find
amount_for-change_first k j f [] = ground arith
amount_for-change_first k j f (x ∷ xs) = ground (arith, amount_for-change_first k j f xs)

module _ (xs : List Bond) (s : IsSorted owner_of xs) where
  pub amount_for-insert :
      (b : Bond) (j : ℕ)
      → (OrderedSet.insert owner_of b xs).1 ≡ true
      → amount_for j (OrderedSet.insert owner_of b xs).0
        ≡ (if b.owner == j then some b.amount else amount_for j xs)
  amount_for-insert b j put =
      ground (arith, find-insert owner_of b j xs s, insert_reports owner_of b xs s)

  -- An inserted bond was absent.
  pub insert-absent :
      (b : Bond) → (OrderedSet.insert owner_of b xs).1 ≡ true → amount_for b.owner xs ≡ none
  insert-absent b put = ground (arith, insert_reports owner_of b xs s)

pub amount_for-without :
    (k j : ℕ) (xs : List Bond)
    → amount_for j (OrderedSet.from owner_of (without k xs))
      ≡ (if k == j then none else amount_for j xs)
amount_for-without k j xs = ground (arith, find-from owner_of j (without k xs), find-without k j xs)
