-- ===== src/Stake/Nominator/Swap.antt =====
-- What `swap_nomination` of pallets/stake/src/lib.rs does to each nomination.
use moonbeam.Base.{
  ℕ, ◌≤◌, ◌≡◌, refl, ◌∙◌, Option, none, some, List, [], ◌∷◌, false, arith, ◌==◌, if◌then◌else◌,
  add_u128,
}
use moonbeam.OrderedSet
use moonbeam.OrderedSet.{IsSorted, Above, find}
use moonbeam.OrderedSet.Laws.{find-insert}
use moonbeam.OrderedSet.From.{find-from, from-IsSorted}
use moonbeam.Stake.Types.{Bond, owner_of, Nominator}
use moonbeam.Stake.Validator.{without}
use moonbeam.Stake.Nominator.{last_amount, swap_into, swap_nomination}

-- The amount of a bond that may be missing.
abbrev pub amount_in : Option Bond → Option ℕ
amount_in none = none
amount_in (some b) = some b.amount

pub find-without :
    (k j : ℕ) (xs : List Bond)
    → find owner_of j (without k xs) ≡ (if k == j then none else find owner_of j xs)
unfolding find without
find-without k j [] = ground arith
find-without k j (x ∷ xs) = ground (arith, find-without k j xs)

last_amount-Above :
    (k n : ℕ) (acc : Option ℕ) (xs : List Bond)
    → Above owner_of n xs
    → k ≤ n
    → last_amount k acc xs ≡ acc
unfolding last_amount
last_amount-Above k n acc [] h le = refl
last_amount-Above k n acc (x ∷ xs) h le = ground (arith, last_amount-Above k x.owner acc xs h.1)

last_amount_below :
    (k n : ℕ) (xs : List Bond)
    → Above owner_of n xs
    → last_amount k none xs ≡ amount_in (find owner_of k xs)
unfolding last_amount find
last_amount_below k n [] h = refl
last_amount_below k n (x ∷ xs) h =
    ground (
      arith,
      last_amount_below k x.owner xs h.1,
      last_amount-Above k x.owner (some x.amount) xs h.1,
    )

-- On an ordered set the loop finds the amount of the one bond of the owner.
pub last_amount-find :
    (k : ℕ) (xs : List Bond)
    → IsSorted owner_of xs
    → last_amount k none xs ≡ amount_in (find owner_of k xs)
unfolding last_amount find
last_amount-find k [] h = refl
last_amount-find k (x ∷ xs) h =
    ground
      (arith, last_amount_below k x.owner xs h, last_amount-Above k x.owner (some x.amount) xs h)

-- The nomination of `j` after a swap, from those of `old`, of `new` and of `j` before it. Where both
-- were nominated, `old` keeps its nomination.
abbrev pub swapped : ℕ → ℕ → Option Bond → Option Bond → ℕ → Option Bond → Option Bond
swapped old new none at_new j at_j = at_j
swapped old new (some b) none j at_j =
    if new == j
    then some (record { owner = new; amount = b.amount })
    else (if old == j then none else at_j)
swapped old new (some b) (some c) j at_j =
    if new == j then some (record { owner = new; amount = add_u128 c.amount b.amount }) else at_j

-- What the swap returns: the amount swapped, and the amount at `new` after it.
abbrev pub swapped_amounts : Option Bond → Option Bond → Option (ℕ × ℕ)
swapped_amounts none at_new = none
swapped_amounts (some b) none = some (b.amount, b.amount)
swapped_amounts (some b) (some c) = some (b.amount, add_u128 c.amount b.amount)

find-put :
    (new amount j k : ℕ) (xs : List Bond)
    → find owner_of new (without k xs) ≡ none
    → find owner_of j
        (OrderedSet.insert owner_of
          (record { owner = new; amount = amount })
          (OrderedSet.from owner_of (without k xs))).0
      ≡ (if new == j
          then some (record { owner = new; amount = amount })
          else (if k == j then none else find owner_of j xs))
find-put new amount j k xs absent = ground (
  arith,
  find-insert owner_of (record { owner = new; amount = amount }) j
      (OrderedSet.from owner_of (without k xs)) (from-IsSorted owner_of (without k xs)),
  find-from owner_of new (without k xs),
  find-from owner_of j (without k xs),
  find-without k j xs,
)

-- What a swap must come to, from the nominations before it.
abbrev pub Swaps : ℕ → ℕ → Nominator → Nominator × Option (ℕ × ℕ) → Type 0
Swaps old new n (after, amounts) =
    let at_old = find owner_of old n.nominations in
    let at_new = find owner_of new n.nominations in
    ((j : ℕ)
      → find owner_of j after.nominations
        ≡ swapped old new at_old at_new j (find owner_of j n.nominations))
    × (after.total ≡ n.total)
    × (amounts ≡ swapped_amounts at_old at_new)

-- A swap of two different validators, from any nominations in order. It fails and changes nothing if
-- `old` is not nominated. It moves the amount of `old` to a `new` that is not yet nominated. If both are
-- nominated, it adds the amount to `new`, but leaves the nomination of `old` as it was; the total
-- does not change.
pub swap_nomination-Swaps :
    (old new : ℕ) (n : Nominator)
    → IsSorted owner_of n.nominations
    → (old == new) ≡ false
    → Swaps old new n (swap_nomination old new n)
unfolding swap_nomination swap_into
swap_nomination-Swaps old new n s differ =
    go (find owner_of old bonds) (find owner_of new bonds) refl refl
  where
    bonds : List Bond
    bonds = n.nominations

    go :
        (at_old at_new : Option Bond)
        → find owner_of old bonds ≡ at_old
        → find owner_of new bonds ≡ at_new
        → Swaps old new n (swap_nomination old new n)
    go none at_new e f =
        rw (swap_nomination, last_amount-find old bonds s, e) (λ j. refl, refl, refl)
    go (some b) none e f =
        rw
          (
            swap_nomination,
            last_amount-find old bonds s,
            e,
            swap_into,
            last_amount-find new bonds s,
            f,
          )
          (
            λ j. find-put new b.amount j old bonds (find-without old new bonds ∙ ground (arith, f)),
            refl,
            refl,
          )
    go (some b) (some c) e f =
        rw
          (
            swap_nomination,
            last_amount-find old bonds s,
            e,
            swap_into,
            last_amount-find new bonds s,
            f,
          )
          (
            λ j.
                find-put new (add_u128 c.amount b.amount) j new bonds
                  (find-without new new bonds ∙ ground arith)
                ∙ ground arith,
            refl,
            refl,
          )
