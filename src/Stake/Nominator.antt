-- ===== src/Stake/Nominator.antt =====
-- `impl Nominator`
pub mod Swap
pub mod Totals
pub mod Histories
use moonbeam.Base.{
  ℕ, Bool, true, false, Option, none, some, List, [], ◌∷◌, ltb, ◌==◌, if◌then◌else◌, add_u128,
  sub_u128,
}
use moonbeam.OrderedSet
use moonbeam.Stake.Types.{Bond, owner_of, Nominator}
use moonbeam.Stake.Validator.{without, change_first}

-- `Nominator::new`
unfoldable pub new : ℕ → ℕ → Nominator
new validator nomination = record {
  nominations = OrderedSet.from owner_of (record { owner = validator; amount = nomination } ∷ []);
  total = nomination;
}

unfoldable pub add_nomination : Bond → Nominator → Nominator × Bool
add_nomination bond n =
    let (nominations, inserted) = OrderedSet.insert owner_of bond n.nominations in
    if inserted
    then (record { nominations = nominations; total = add_u128 n.total bond.amount }, true)
    else (record n { nominations = nominations }, false)

-- The `amt` that a `filter_map` leaves behind: the amount of the last bond of the owner.
unfoldable pub last_amount : ℕ → Option ℕ → List Bond → Option ℕ
last_amount owner amt [] = amt
last_amount owner amt (x ∷ xs) =
    last_amount owner (if x.owner == owner then some x.amount else amt) xs

unfoldable pub rm_nomination : ℕ → Nominator → Nominator × Option ℕ
rm_nomination validator n = elim (last_amount validator none n.nominations) [
  | none ↦ (n, none)
  | some balance ↦
      let total = sub_u128 n.total balance in
      (
        record {
          nominations = OrderedSet.from owner_of (without validator n.nominations);
          total = total;
        },
        some total,
      )
]

-- The bonds after the swap, and the new amount at `new`, once `old` is known to be nominated.
unfoldable pub swap_into : ℕ → ℕ → ℕ → List Bond → List Bond × ℕ
swap_into old new swapped_amt bonds = elim (last_amount new none bonds) [
  | some old_amt ↦
      let new_amt = add_u128 old_amt swapped_amt in
      (
        (OrderedSet.insert owner_of (record { owner = new; amount = new_amt })
            (OrderedSet.from owner_of (without new bonds))).0,
        new_amt,
      )
  | none ↦ (
    (OrderedSet.insert owner_of (record { owner = new; amount = swapped_amt })
        (OrderedSet.from owner_of (without old bonds))).0,
    swapped_amt,
  )
]

unfoldable pub swap_nomination : ℕ → ℕ → Nominator → Nominator × Option (ℕ × ℕ)
unfolding swap_into
swap_nomination old new n = elim (last_amount old none n.nominations) [
  | none ↦ (n, none)
  | some swapped_amt ↦
      let (nominations, new_amount) = swap_into old new swapped_amt n.nominations in
      (record n { nominations = nominations }, some (swapped_amt, new_amount))
]

-- The amount of the first bond of an owner, which a `for` loop finds.
unfoldable pub first_amount : ℕ → List Bond → Option ℕ
first_amount owner [] = none
first_amount owner (x ∷ xs) =
    let rest = first_amount owner xs in if x.owner == owner then some x.amount else rest

unfoldable pub inc_nomination : ℕ → ℕ → Nominator → Nominator × Option ℕ
inc_nomination validator more n = elim (first_amount validator n.nominations) [
  | none ↦ (n, none)
  | some amount ↦ (
    record {
      nominations = change_first validator (λ a. add_u128 a more) n.nominations;
      total = add_u128 n.total more;
    },
    some (add_u128 amount more),
  )
]

-- The underflow is `some none`.
unfoldable pub dec_nomination : ℕ → ℕ → Nominator → Nominator × Option (Option ℕ)
dec_nomination validator less n = elim (first_amount validator n.nominations) [
  | none ↦ (n, none)
  | some amount ↦
      if ltb less amount
      then (
        record {
          nominations = change_first validator (λ a. sub_u128 a less) n.nominations;
          total = sub_u128 n.total less;
        },
        some (some (sub_u128 amount less)),
      )
      else (n, some none)
]
