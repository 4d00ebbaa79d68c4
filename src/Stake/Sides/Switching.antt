-- ===== src/Stake/Sides/Switching.antt =====
-- `switch_nomination` of pallets/stake/src/lib.rs, to a validator that is not nominated yet, keeps the
-- two sides of every nomination in agreement.
use moonbeam.Base.{
  ℕ, ◌≡◌, refl, sym, ap, ◌∙◌, true, false, Option, none, some, List, arith, ◌==◌, Option-cases, inl,
  inr,
}
use moonbeam.Base.Map
use moonbeam.Base.Map.{lookup-insert}
use moonbeam.OrderedSet
use moonbeam.OrderedSet.{IsSorted, find}
use moonbeam.OrderedSet.Laws.{insert_reports}
use moonbeam.OrderedSet.From.{from-IsSorted}
use moonbeam.Stake.Types.{Bond, owner_of, Validator as Candidate, Nominator as Nominations}
use moonbeam.Stake.Validator
use moonbeam.Stake.Validator.{without}
use moonbeam.Stake.Nominator
use moonbeam.Stake.Nominator.{last_amount, swap_into}
use moonbeam.Stake.Nominator.Swap.{last_amount-find}
use moonbeam.Stake.Storage.{State}
use moonbeam.Stake.Storage.Ends.{
  Ends-signed, Ends-ensure, Ends-then, Ends-event, Ends-read, Ends-ok_or,
}
use moonbeam.Stake.CandidateCalls.{update_active}
use moonbeam.Stake.NominatorCalls.{receive_nomination, switch_nomination}
use moonbeam.Stake.Limits.{nominations_in}
use moonbeam.Stake.Sides.{amount_for, Matched, IsMatched, listing, nominating, Matched-ext}
use moonbeam.Stake.Sides.Amounts.{amount_for-without}
use moonbeam.Stake.Sides.Methods.{insert-Alters, from_without-Alters}
use moonbeam.Stake.Sides.Changes.{
  put_bond-Matched, put_nominator-Matched, found-IsSorted, nominating-IsSorted, found-same_amount,
}
use moonbeam.Stake.Sides.Candidates.{Matches}

pub insert-vacant :
    (b : Bond) (xs : List Bond)
    → IsSorted owner_of xs
    → amount_for b.owner xs ≡ none
    → (OrderedSet.insert owner_of b xs).1 ≡ true
insert-vacant b xs s absent = ground (arith, insert_reports owner_of b xs s)

-- The nominations after a swap to a validator that is not nominated yet.
abbrev pub swapped_bonds : ℕ → ℕ → ℕ → List Bond → List Bond
swapped_bonds old new a xs =
    (OrderedSet.insert owner_of (record { owner = new; amount = a })
      (OrderedSet.from owner_of (without old xs))).0

pub swap_nomination_vacant :
    (old new : ℕ) (n : Nominations) (amounts : ℕ × ℕ)
    → last_amount new none n.nominations ≡ none
    → (Nominator.swap_nomination old new n).1 ≡ some amounts
    → (a : ℕ) × (amounts ≡ (a, a))
      × ((Nominator.swap_nomination old new n).0.nominations
          ≡ swapped_bonds old new a n.nominations)
unfolding Nominator.swap_nomination Nominator.swap_into
swap_nomination_vacant old new n amounts vacant swapped =
    elim (Option-cases (last_amount old none n.nominations)) [
      | inl e ↦ absurd (ground arith)
      | inr (a, e) ↦ (
        a,
        ground (arith, vacant, e, swapped),
        rw (Nominator.swap_nomination, e, Nominator.swap_into, vacant) refl,
      )
    ]

receive_nomination-nominators :
    (acc a : ℕ) (w : Candidate) (amounts : ℕ × ℕ)
    → amounts ≡ (a, a)
    → (receive_nomination acc amounts.0 amounts.1 w).0.nominators
      ≡ (OrderedSet.insert owner_of (record { owner = acc; amount = a }) w.nominators).0
unfolding receive_nomination Validator.add_nominator
receive_nomination-nominators acc a w amounts e = ground arith

module _ {L : Type 0} (s : State L) (h : IsMatched s) where
  switched-Matched :
      (acc old new a : ℕ) (n n' : Nominations) (v v' w w' : Candidate)
      → (old == new) ≡ false
      → Map.lookup acc s.nominators ≡ some n
      → Map.lookup old s.candidates ≡ some v
      → Map.lookup new s.candidates ≡ some w
      → amount_for new n.nominations ≡ none
      → v'.nominators ≡ OrderedSet.from owner_of (without acc v.nominators)
      → w'.nominators
        ≡ (OrderedSet.insert owner_of (record { owner = acc; amount = a }) w.nominators).0
      → n'.nominations ≡ swapped_bonds old new a n.nominations
      → Matched
          (listing (Map.insert new w' (Map.insert old v' s.candidates)))
          (nominating (Map.insert acc n' s.nominators))
  switched-Matched acc old new a n n' v v' w w' differ nominates found_old found_new vacant ev ew
        en =
      let ys = OrderedSet.from owner_of (without old n.nominations) in
      let ys_sorted = from-IsSorted owner_of (without old n.nominations) in
      let w_sorted = found-IsSorted s h new w found_new in
      let unlisted : amount_for acc w.nominators ≡ none =
        found-same_amount s h new acc w n found_new nominates ∙ vacant in
      let left =
        put_bond-Matched s.candidates h old acc v v' n.nominations ys none found_old
          (ap nominations_in nominates) (rw ev (from_without-Alters acc v.nominators))
          (from_without-Alters old n.nominations) in
      let joined =
        put_bond-Matched (Map.insert old v' s.candidates) left new acc w w' ys n'.nominations
          (some a) (ground (arith, lookup-insert old new v' s.candidates)) (ground arith)
          (rw ew (
            insert-Alters w.nominators w_sorted (record { owner = acc; amount = a })
              (insert-vacant (record { owner = acc; amount = a }) w.nominators w_sorted unlisted)))
          (rw en (
            insert-Alters ys ys_sorted (record { owner = new; amount = a })
              (insert-vacant (record { owner = new; amount = a }) ys ys_sorted
                (ground (arith, amount_for-without old new n.nominations))))) in
      put_nominator-Matched s.nominators acc n' (Matched-ext joined (λ c. refl) (λ b. ground arith))

  pub switch_nomination-Matches :
      (origin : Option ℕ) (old new : ℕ)
      → ((acc : ℕ) → origin ≡ some acc → amount_for new (nominating s.nominators acc) ≡ none)
      → Matches (switch_nomination origin old new s)
  unfolding switch_nomination update_active Validator.rm_nominator
  switch_nomination-Matches origin old new fresh = Ends-signed _ _ _ h λ acc signed.
      Ends-ensure _ _ _ _ h λ other. Ends-read _ _ _ _ h λ n nominates.
        Ends-read _ _ _ _ h λ v found_old. Ends-read _ _ _ _ h λ w found_new.
          Ends-ok_or _ _ _ _ h λ amounts swapped.
            let vacant : amount_for new n.nominations ≡ none =
              ap (λ o. amount_for new (nominations_in o)) (sym nominates) ∙ fresh acc signed in
            let sorted = nominating-IsSorted s h acc n nominates in
            let (a, same, put) =
              swap_nomination_vacant old new n amounts
                (last_amount-find new n.nominations sorted ∙ vacant) swapped in
            Ends-then _ _ _ (
              Ends-then _ _ _ (
                Ends-then _ _ _ (
                  Ends-then _ _ _ (
                    Ends-then _ _ _ (
                      Ends-event _ _ (
                        switched-Matched acc old new a n (Nominator.swap_nomination old new n).0 v
                          (Validator.rm_nominator acc v).0 w
                          (receive_nomination acc amounts.0 amounts.1 w).0 (ground arith) nominates
                          found_old found_new vacant refl
                          (receive_nomination-nominators acc a w amounts same) put))))))
