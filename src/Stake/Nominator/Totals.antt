-- ===== src/Stake/Nominator/Totals.antt =====
-- The total of a nominator is the sum of its nominations, through the methods of `impl Nominator` in
-- pallets/stake/src/lib.rs.
use moonbeam.Base.{
  ℕ, ◌+◌, ◌%◌, ◌^◌, ◌<◌, ◌≡◌, refl, sym, ap, ◌∙◌, Bool, true, false, Option, none, some, List, [],
  ◌∷◌, arith, ltb, add_u128, sub_u128, not, Bool-cases, inl, inr,
}
use moonbeam.OrderedSet
use moonbeam.OrderedSet.{find}
use moonbeam.OrderedSet.Laws.{insert_lem, insert_reports}
use moonbeam.OrderedSet.From.{find-from}
use moonbeam.Stake.Types.{Bond, owner_of, Nominator}
use moonbeam.Stake.Validator.{without, lists}
use moonbeam.Stake.Validator.Bonds.{
  sum, amount_of, BondFits, Bonds, insert-Bonds, without-Bonds, amount_of-fits, lists-find,
}
use moonbeam.Stake.Validator.Changes.{change_first-Bonds}
use moonbeam.Stake.Validator.Arithmetic.{
  total-more, total-less, total-inc, total-dec, add_lt, sub_lt,
}
use moonbeam.Stake.Nominator.{
  new, add_nomination, last_amount, rm_nomination, swap_into, swap_nomination, first_amount,
  inc_nomination, dec_nomination,
}
use moonbeam.Stake.Nominator.Swap.{amount_in, last_amount-find, find-without}

-- The nominations are an ordered set, and the total is their sum, as `u128` has it.
pub record IsBalanced (n : Nominator) : Type 0 where
  pub bonds : Bonds n.nominations
  pub balanced : n.total ≡ (0 + sum n.nominations) % 2 ^ 128

-- What `last_amount` finds, by the amount that the list has for the owner.
abbrev listed : Bool → ℕ → Option ℕ
listed true a = some a
listed false a = none

find-listed :
    (k : ℕ) (xs : List Bond) → amount_in (find owner_of k xs) ≡ listed (lists k xs) (amount_of k xs)
unfolding find lists amount_of
find-listed k [] = refl
find-listed k (x ∷ xs) = ground (arith, find-listed k xs)

first_amount-listed :
    (k : ℕ) (xs : List Bond) → first_amount k xs ≡ listed (lists k xs) (amount_of k xs)
unfolding first_amount lists amount_of
first_amount-listed k [] = refl
first_amount-listed k (x ∷ xs) = ground (arith, first_amount-listed k xs)

last_amount-listed :
    (k : ℕ) (xs : List Bond)
    → Bonds xs
    → last_amount k none xs ≡ listed (lists k xs) (amount_of k xs)
last_amount-listed k xs h = last_amount-find k xs h.sorted ∙ find-listed k xs

insert-listed :
    (b : Bond) (xs : List Bond)
    → Bonds xs
    → (OrderedSet.insert owner_of b xs).1 ≡ not (lists b.owner xs)
insert-listed b xs h = ground (arith, insert_reports owner_of b xs h.sorted, lists-find b.owner xs)

insert-there :
    (b : Bond) (xs : List Bond)
    → Bonds xs
    → lists b.owner xs ≡ true
    → (OrderedSet.insert owner_of b xs).0 ≡ xs
insert-there b xs h e = ground (arith, insert_lem owner_of b xs h.sorted, lists-find b.owner xs)

lists-without :
    (k j : ℕ) (xs : List Bond)
    → lists j xs ≡ false
    → lists j (OrderedSet.from owner_of (without k xs)) ≡ false
lists-without k j xs e = ground (
  arith,
  lists-find j (OrderedSet.from owner_of (without k xs)),
  lists-find j xs,
  find-from owner_of j (without k xs),
  find-without k j xs,
)

module _ (n : Nominator) (h : IsBalanced n) where
  pub add_nomination-IsBalanced : (b : Bond) → BondFits b → IsBalanced (add_nomination b n).0
  unfolding add_nomination
  add_nomination-IsBalanced b p = elim (Bool-cases (lists b.owner n.nominations)) [
    | inl e ↦
        rw
          (
            add_nomination,
            insert-listed b n.nominations h.bonds,
            e,
            insert-there b n.nominations h.bonds e,
          )
          h
    | inr e ↦
        rw (add_nomination, insert-listed b n.nominations h.bonds, e)
          (let (kept, grown) = insert-Bonds b n.nominations h.bonds p e in
            record {
              bonds = kept;
              balanced = rw grown (total-more n.total 0 _ b.amount h.balanced);
            })
  ]

  pub rm_nomination-IsBalanced : (k : ℕ) → IsBalanced (rm_nomination k n).0
  unfolding rm_nomination
  rm_nomination-IsBalanced k = elim (Bool-cases (lists k n.nominations)) [
    | inl e ↦
        rw (rm_nomination, last_amount-listed k n.nominations h.bonds, e)
          (let (kept, less) = without-Bonds k n.nominations h.bonds in
            record {
              bonds = kept;
              balanced =
                  total-less n.total 0 _ _ _ h.balanced less
                    (amount_of-fits k n.nominations h.bonds.fits);
            })
    | inr e ↦ rw (rm_nomination, last_amount-listed k n.nominations h.bonds, e) h
  ]

  pub inc_nomination-IsBalanced :
      (k more : ℕ) → more < 2 ^ 128 → IsBalanced (inc_nomination k more n).0
  unfolding inc_nomination
  inc_nomination-IsBalanced k more p = elim (Bool-cases (lists k n.nominations)) [
    | inl e ↦
        rw (inc_nomination, first_amount-listed k n.nominations, e)
          (let (kept, changed) =
              change_first-Bonds k (λ a. add_u128 a more) n.nominations (λ a. add_lt a more)
                h.bonds in
            record {
              bonds = kept;
              balanced = total-inc n.total 0 _ _ _ more h.balanced (rw e at changed);
            })
    | inr e ↦ rw (inc_nomination, first_amount-listed k n.nominations, e) h
  ]

  pub dec_nomination-IsBalanced :
      (k less : ℕ) → less < 2 ^ 128 → IsBalanced (dec_nomination k less n).0
  unfolding dec_nomination
  dec_nomination-IsBalanced k less p = elim (Bool-cases (lists k n.nominations)) [
    | inl e ↦
        rw (dec_nomination, first_amount-listed k n.nominations, e)
          (elim (Bool-cases (ltb less (amount_of k n.nominations))) [
            | inl lt ↦ rw lt (
                let (kept, changed) =
                  change_first-Bonds k (λ a. sub_u128 a less) n.nominations (λ a. sub_lt a less)
                    h.bonds in
                record {
                  bonds = kept;
                  balanced = total-dec n.total 0 _ _ _ less h.balanced (rw e at changed) p;
                })
            | inr ge ↦ rw ge h
          ])
    | inr e ↦ rw (dec_nomination, first_amount-listed k n.nominations, e) h
  ]

  -- A swap into a validator that is not nominated yet.
  pub swap_nomination-IsBalanced :
      (old new : ℕ) → lists new n.nominations ≡ false → IsBalanced (swap_nomination old new n).0
  unfolding swap_nomination swap_into
  swap_nomination-IsBalanced old new absent = elim (Bool-cases (lists old n.nominations)) [
    | inl e ↦
        (let a = amount_of old n.nominations in
          let (kept, less) = without-Bonds old n.nominations h.bonds in
          let (put, more) =
            insert-Bonds (record { owner = new; amount = a })
              (OrderedSet.from owner_of (without old n.nominations)) kept
              (amount_of-fits old n.nominations h.bonds.fits)
              (lists-without old new n.nominations absent) in
          rw
            (
              swap_nomination,
              last_amount-listed old n.nominations h.bonds,
              e,
              swap_into,
              last_amount-listed new n.nominations h.bonds,
              absent,
            )
            (record {
              bonds = put;
              balanced = h.balanced ∙ ap (λ t. (0 + t) % 2 ^ 128) (sym (more ∙ less));
            }))
    | inr e ↦ rw (swap_nomination, last_amount-listed old n.nominations h.bonds, e) h
  ]
