-- ===== src/Stake/Backing/Switching.antt =====
-- `switch_nomination` of pallets/stake/src/lib.rs moves an amount and leaves the stakes and the reserved
-- balances as they are.
use moonbeam.Base.{ℕ, ◌≡◌, refl, sym, ap, ◌∙◌, Option, none, some, arith, Option-cases, inl, inr}
use moonbeam.Base.Map.{lookup-insert}
use moonbeam.OrderedSet
use moonbeam.OrderedSet.{IsSorted}
use moonbeam.OrderedSet.From.{from-IsSorted}
use moonbeam.Stake.Types.{Bond, owner_of, Validator as Candidate, Nominator as Nominations}
use moonbeam.Stake.Validator
use moonbeam.Stake.Validator.{without}
use moonbeam.Stake.Validator.Bonds.{sum}
use moonbeam.Stake.Nominator
use moonbeam.Stake.Nominator.{last_amount}
use moonbeam.Stake.Nominator.Swap.{last_amount-find}
use moonbeam.Stake.Storage.{State}
use moonbeam.Stake.Storage.Ends.{
  Ends, Ends-signed, Ends-ensure, Ends-then, Ends-event, Ends-read, Ends-ok_or,
}
use moonbeam.Stake.CandidateCalls.{update_active}
use moonbeam.Stake.NominatorCalls.{receive_nomination, switch_nomination}
use moonbeam.Stake.Limits.{nominations_in}
use moonbeam.Stake.Sides.{amount_for, nominating}
use moonbeam.Stake.Sides.Amounts.{amount_for-without}
use moonbeam.Stake.Sides.Methods.{insert-Alters, from_without-Alters}
use moonbeam.Stake.Sides.Changes.{nominating-IsSorted}
use moonbeam.Stake.Sides.Switching.{swapped_bonds, swap_nomination_vacant, insert-vacant}
use moonbeam.Stake.Sides.Exits.{IsExact, insert-AllExact}
use moonbeam.Stake.Backing.{IsStaked, Stakes, IsBacked}
use moonbeam.Stake.Backing.Sums.{or_zero, sum-Alters, IsPositive-Alters, positive_at}
use moonbeam.Stake.Backing.Changes.{keep_candidate-Backed, put_bonds-Backed, put_nominator-Backed}

swap_nomination-amount :
    (old new a : ℕ) (n : Nominations) (amounts : ℕ × ℕ)
    → (Nominator.swap_nomination old new n).1 ≡ some amounts
    → amounts ≡ (a, a)
    → last_amount new none n.nominations ≡ none
    → (last_amount old none n.nominations ≡ some a)
      × ((Nominator.swap_nomination old new n).0.total ≡ n.total)
unfolding Nominator.swap_nomination Nominator.swap_into
swap_nomination-amount old new a n amounts swapped same vacant =
    elim (Option-cases (last_amount old none n.nominations)) [
      | inl e ↦ absurd (ground arith)
      | inr (b, e) ↦
          (ground (arith, e, swapped, same, vacant), rw (Nominator.swap_nomination, e) refl)
    ]

receive_nomination-frame :
    (acc swapped new_amt : ℕ) (v : Candidate)
    → let v' = (receive_nomination acc swapped new_amt v).0 in (v'.id ≡ v.id) × (v'.bond ≡ v.bond)
unfolding receive_nomination Validator.update_nominator Validator.add_nominator
receive_nomination-frame acc swapped new_amt v = ground arith

-- The nominations after the swap have the same sum, of amounts above zero.
swapped-IsExact :
    (old new a : ℕ) (n n' : Nominations)
    → IsSorted owner_of n.nominations
    → IsExact n
    → amount_for old n.nominations ≡ some a
    → amount_for new n.nominations ≡ none
    → n'.nominations ≡ swapped_bonds old new a n.nominations
    → n'.total ≡ n.total
    → IsExact n' × (sum n'.nominations ≡ sum n.nominations)
swapped-IsExact old new a n n' s e nominates vacant put total =
    let ys = OrderedSet.from owner_of (without old n.nominations) in
    let ys_sorted = from-IsSorted owner_of (without old n.nominations) in
    let left = from_without-Alters old n.nominations in
    let ys_vacant : amount_for new ys ≡ none =
      ground (arith, amount_for-without old new n.nominations) in
    let b : Bond = record { owner = new; amount = a } in
    let joined = insert-Alters ys ys_sorted b (insert-vacant b ys ys_sorted ys_vacant) in
    let sums : sum (swapped_bonds old new a n.nominations) ≡ sum n.nominations = omega (
      arith,
      sum-Alters old none n.nominations ys s left,
      sum-Alters new (some a) ys _ ys_sorted joined,
      ap or_zero nominates,
      ap or_zero ys_vacant,
    ) in
    let ys_positive =
      IsPositive-Alters old none n.nominations ys e.positive left (λ x q. ground arith) in
    (
      record {
        exact = rw put (omega (arith, total, sums, e.exact));
        fits = omega (arith, total, e.fits);
        positive = rw put (
            IsPositive-Alters new (some a) ys _ ys_positive joined
              (λ x q. ground (arith, positive_at old a n.nominations e.positive nominates)));
      },
      rw put sums,
    )

module _ {L : Type 0} (reserved : ℕ → L → ℕ) (s : State L) (h : IsBacked reserved s) where
  pub switch_nomination-Stakes :
      (origin : Option ℕ) (old new : ℕ)
      → ((acc : ℕ) → origin ≡ some acc → amount_for new (nominating s.nominators acc) ≡ none)
      → Ends (Stakes reserved) (switch_nomination origin old new s)
  unfolding switch_nomination update_active Validator.rm_nominator
  switch_nomination-Stakes origin old new fresh =
      let staked : IsStaked reserved s = (h.exact, h.stakes) in
      Ends-signed _ _ _ staked λ acc signed. Ends-ensure _ _ _ _ staked λ other.
        Ends-read _ _ _ _ staked λ n nominates. Ends-read _ _ _ _ staked λ v found_old.
          Ends-read _ _ _ _ staked λ w found_new. Ends-ok_or _ _ _ _ staked λ amounts swapped.
            let vacant : amount_for new n.nominations ≡ none =
              ap (λ o. amount_for new (nominations_in o)) (sym nominates) ∙ fresh acc signed in
            let sorted = nominating-IsSorted s h.matched acc n nominates in
            let no_amount = last_amount-find new n.nominations sorted ∙ vacant in
            let (a, same, put) = swap_nomination_vacant old new n amounts no_amount swapped in
            let (amount, total) =
              swap_nomination-amount old new a n amounts swapped same no_amount in
            let n' = (Nominator.swap_nomination old new n).0 in
            let (exact, sums) =
              swapped-IsExact old new a n n' sorted (h.exact acc n nominates)
                (sym (last_amount-find old n.nominations sorted) ∙ amount) vacant put total in
            let (id, bond) = receive_nomination-frame acc amounts.0 amounts.1 w in
            Ends-then _ _ _ (
              Ends-then _ _ _ (
                Ends-then _ _ _ (
                  Ends-then _ _ _ (
                    Ends-then _ _ _ (
                      Ends-event _ _ (
                        insert-AllExact acc n' s.nominators h.exact exact,
                        put_nominator-Backed s.nominators acc n' (
                            keep_candidate-Backed
                              (keep_candidate-Backed
                                (put_bonds-Backed h.stakes acc n'.nominations λ b. ground (
                                  arith,
                                  h.stakes.backed acc,
                                  sums,
                                  ap sum (ap nominations_in nominates),
                                ))
                                old v (Validator.rm_nominator acc v).0 found_old refl refl)
                              new w (receive_nomination acc amounts.0 amounts.1 w).0
                              (ground (
                                arith,
                                lookup-insert old new (Validator.rm_nominator acc v).0 s.candidates,
                              ))
                              id bond),
                      ))))))
