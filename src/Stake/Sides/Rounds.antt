-- ===== src/Stake/Sides/Rounds.antt =====
-- `on_finalize` of pallets/stake/src/lib.rs keeps the two sides of every nomination in agreement, where
-- the totals of the nominators are exact.
use mathlib.Core.Path.{subst}
use moonbeam.Base.{
  ℕ, ◌≡◌, refl, sym, ◌∙◌, none, some, List, [], ◌∷◌, arith, ◌==◌, ltb, Option-cases, Bool-cases,
  inl, inr, add_u32,
}
use moonbeam.Base.Map
use moonbeam.Base.Map.{Map, lookup-remove}
use moonbeam.OrderedSet.{IsSorted, find}
use moonbeam.Stake.Types.{Bond, owner_of, Validator as Candidate}
use moonbeam.Stake.Storage.{Config, State}
use moonbeam.Stake.Storage.Ends.{
  Ends-gets, Ends-then, Ends-event, Ends-or_panic, Ends-call, Ends-pure, Ends-if,
}
use moonbeam.Stake.Payouts.{pay_stakers}
use moonbeam.Stake.Payouts.Frame.{SameStakes, pay_stakers-SameStakes}
use moonbeam.Stake.Rounds.{
  release_nominators, exit_validator, process_exits, execute_delayed_validator_exits, end_round,
  on_finalize, drop_nomination,
}
use moonbeam.Stake.Rounds.Snapshots.{SameStakers, best_candidates-SameStakers}
use moonbeam.Stake.Sides.{
  amount_for, Matched, IsMatched, listing, nominating, with_bonds, Matched-ext, Matched-both,
}
use moonbeam.Stake.Sides.Leaving.{tail-Alters}
use moonbeam.Stake.Sides.Candidates.{Matches}
use moonbeam.Stake.Sides.Exits.{AllExact, Dropped, drop_nomination-Dropped}

-- The nominations of the exiting validator's bonds are still to be removed.
abbrev pub Releasing : {L : Type 0} → ℕ → List Bond → State L → Type 0
Releasing validator bonds s =
    Matched (with_bonds validator bonds (listing s.candidates)) (nominating s.nominators)
    × AllExact s.nominators

-- Both sides of every nomination agree, and the totals are exact.
abbrev pub IsSound : {L : Type 0} → State L → Type 0
IsSound s = IsMatched s × AllExact s.nominators

pub SameStakes-IsMatched : {L : Type 0} {s t : State L} → SameStakes s t → IsMatched s → IsMatched t
SameStakes-IsMatched q h = rw (q.candidates, q.nominators) h

listing-remove :
    (c : ℕ) (m : Map Candidate) (d : ℕ) → listing (Map.remove c m) d ≡ with_bonds c [] (listing m) d
listing-remove c m d = ground (arith, lookup-remove c d m)

module _ {L : Type 0} (cfg : Config L) where
  -- The state in which a bond of the exiting validator is given back and its nomination removed.
  abbrev pub released : ℕ → Bond → State L → State L
  released validator b s =
      drop_nomination validator b.owner
        (record s { ledger = cfg.unreserve b.owner b.amount s.ledger })

  pub released-Dropped :
      (validator : ℕ) (b : Bond) (bonds : List Bond) (s : State L)
      → Releasing validator (b ∷ bonds) s
      → (amount_for validator (nominating s.nominators b.owner) ≡ some b.amount)
        × Dropped validator b.owner
            (record s { ledger = cfg.unreserve b.owner b.amount s.ledger })
            (released validator b s)
        × Releasing validator bonds (released validator b s)
  unfolding find
  released-Dropped validator b bonds s (h, exact) =
      let paid = record s { ledger = cfg.unreserve b.owner b.amount s.ledger } in
      let f = with_bonds validator (b ∷ bonds) (listing s.candidates) in
      let own : f validator ≡ b ∷ bonds = ground arith in
      let listed : amount_for b.owner (f validator) ≡ some b.amount = rw own (ground arith) in
      let nominated = sym (h.same_amount validator b.owner) ∙ listed in
      let d =
        drop_nomination-Dropped validator b.owner b.amount paid (h.nominating_sorted b.owner) exact
          nominated in
      let removed =
        Matched-both h validator b.owner bonds d.ys none
          (rw own
            (tail-Alters b bonds (subst (IsSorted owner_of) own (h.listing_sorted validator))))
          d.altered in
      (
        nominated,
        d,
        (Matched-ext removed (λ c. ground (arith, d.candidates)) d.nominators, d.exact),
      )

  release_nominators-Releasing :
      (validator : ℕ) (bonds : List Bond) (s : State L)
      → Releasing validator bonds s
      → Releasing validator [] (release_nominators cfg validator bonds s)
  unfolding release_nominators
  release_nominators-Releasing validator [] s h = h
  release_nominators-Releasing validator (b ∷ bonds) s h =
      release_nominators-Releasing validator bonds _ (released-Dropped validator b bonds s h).2

  pub exit_validator-IsSound :
      (owner : ℕ) (s : State L) → IsSound s → IsSound (exit_validator cfg owner s)
  unfolding exit_validator
  exit_validator-IsSound owner s h = elim (Option-cases (Map.lookup owner s.candidates)) [
    | inl e ↦ rw (exit_validator, e) h
    | inr (v, e) ↦
        let (left, exact) =
          release_nominators-Releasing owner v.nominators s
            (Matched-ext h.0 (λ c. ground (arith, e)) (λ a. refl), h.1) in
        rw (exit_validator, e) (Matched-ext left (listing-remove owner _) (λ a. refl), exact)
  ]

  pub process_exits-IsSound :
      (next : ℕ) (xs : List Bond) (s : State L)
      → IsSound s
      → IsSound (process_exits cfg next xs s).1
  unfolding process_exits
  process_exits-IsSound next [] s h = h
  process_exits-IsSound next (x ∷ xs) s h = elim (Bool-cases (ltb next x.amount)) [
    | inl later ↦ rw later (process_exits-IsSound next xs s h)
    | inr due ↦ rw due (process_exits-IsSound next xs _ (exit_validator-IsSound x.owner s h))
  ]

  pub on_finalize-Matches :
      (n : ℕ) (s : State L) → IsMatched s → AllExact s.nominators → Matches (on_finalize cfg n s)
  unfolding on_finalize end_round execute_delayed_validator_exits
  on_finalize-Matches n s h exact =
      Ends-or_panic _ _ _ (λ e. h)
        λ rest e.
          Ends-if (rest == 0) _ _ _
            (λ last. Ends-gets _ _ _ (
              Ends-then _ _ _ (
                Ends-then _ _ _ (
                  let next = add_u32 s.round 1 in
                  let ended = execute_delayed_validator_exits cfg next (pay_stakers cfg next s) in
                  let paid = pay_stakers-SameStakes cfg next s in
                  let settled =
                    process_exits-IsSound _ _ _
                      (SameStakes-IsMatched paid h, rw paid.nominators exact) in
                  Ends-call (SameStakers ended) _ _ _ (best_candidates-SameStakers _ cfg _)
                    (λ e t q. rw (q.0, q.1) settled.0) (λ t q. rw (q.0, q.1) settled.0)
                    λ counts t q. Ends-then _ _ _ (Ends-event _ _ (rw (q.0, q.1) settled.0))))))
            (λ inside. Ends-pure _ _ h)
