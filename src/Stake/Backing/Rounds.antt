-- ===== src/Stake/Backing/Rounds.antt =====
-- The delayed exits of pallets/stake/src/lib.rs give back the bond of the validator and what was
-- reserved for the nominations of it.
use moonbeam.Base.{
  ℕ, ◌≡◌, refl, ap, ◌∙◌, List, [], ◌∷◌, arith, ◌==◌, ltb, Option-cases, Bool-cases, inl, inr,
  add_u32,
}
use moonbeam.Base.Map
use moonbeam.Stake.Types.{Bond}
use moonbeam.Stake.Storage.{Config, State}
use moonbeam.Stake.Storage.Ends.{
  Ends, Ends-gets, Ends-then, Ends-event, Ends-or_panic, Ends-call, Ends-pure, Ends-if,
}
use moonbeam.Stake.Payouts.{pay_stakers}
use moonbeam.Stake.Payouts.Frame.{pay_stakers-SameStakes}
use moonbeam.Stake.Payouts.Reserved.{pay_stakers-SameReserved}
use moonbeam.Stake.Rounds.{
  release_nominators, exit_validator, process_exits, execute_delayed_validator_exits, end_round,
  on_finalize,
}
use moonbeam.Stake.Rounds.Snapshots.{SameStakers, best_candidates-SameStakers}
use moonbeam.Stake.Sides.{nominating, Matched-ext}
use moonbeam.Stake.Sides.Rounds.{
  Releasing, IsSound, released, released-Dropped, exit_validator-IsSound, process_exits-IsSound,
  SameStakes-IsMatched,
}
use moonbeam.Stake.Backing.{Reserves, Backed, IsBacked, Stakes}
use moonbeam.Stake.Backing.Changes.{put_bonds-Backed, remove_candidate-Backed, Backed-ext}
use moonbeam.Stake.Backing.Leaving.{given_back}

module _ {L : Type 0} (cfg : Config L) (laws : Reserves cfg) where
  abbrev Holds : State L → Type 0
  Holds t = Backed t.candidates (nominating t.nominators) (λ a. laws.reserved a t.ledger)

  released-Holds :
      (validator : ℕ) (b : Bond) (bonds : List Bond) (s : State L)
      → Releasing validator (b ∷ bonds) s
      → Holds s
      → Holds (released cfg validator b s)
  released-Holds validator b bonds s h k =
      let (nominated, d, rest) = released-Dropped cfg validator b bonds s h in
      let back =
        given_back validator b.amount (nominating s.nominators b.owner) d.ys
          (h.0.nominating_sorted b.owner) nominated d.altered in
      rw d.candidates (
        Backed-ext
          (put_bonds-Backed k b.owner d.ys λ a.
            ground (arith, laws.unreserves b.owner b.amount s.ledger a, k.backed b.owner, back))
          d.nominators (λ a. ap (laws.reserved a) d.ledger))

  release_nominators-Holds :
      (validator : ℕ) (bonds : List Bond) (s : State L)
      → Releasing validator bonds s
      → Holds s
      → Holds (release_nominators cfg validator bonds s)
        × ((release_nominators cfg validator bonds s).candidates ≡ s.candidates)
  unfolding release_nominators
  release_nominators-Holds validator [] s h k = (k, refl)
  release_nominators-Holds validator (b ∷ bonds) s h k =
      let (nominated, d, rest) = released-Dropped cfg validator b bonds s h in
      let (kept, same) =
        release_nominators-Holds validator bonds _ rest (released-Holds validator b bonds s h k) in
      (kept, same ∙ d.candidates)

  exit_validator-Holds :
      (owner : ℕ) (s : State L) → IsSound s → Holds s → Holds (exit_validator cfg owner s)
  unfolding exit_validator
  exit_validator-Holds owner s h k = elim (Option-cases (Map.lookup owner s.candidates)) [
    | inl e ↦ rw (exit_validator, e) k
    | inr (v, e) ↦
        let (kept, same) =
          release_nominators-Holds owner v.nominators s
            (Matched-ext h.0 (λ c. ground (arith, e)) (λ a. refl), h.1) k in
        rw (exit_validator, e)
          (remove_candidate-Backed kept owner λ a. ground (
            arith,
            laws.unreserves v.id v.bond (release_nominators cfg owner v.nominators s).ledger a,
            kept.backed owner,
            k.ids owner v e,
            same,
            e,
          ))
  ]

  process_exits-Holds :
      (next : ℕ) (xs : List Bond) (s : State L)
      → IsSound s
      → Holds s
      → Holds (process_exits cfg next xs s).1
  unfolding process_exits
  process_exits-Holds next [] s h k = k
  process_exits-Holds next (x ∷ xs) s h k = elim (Bool-cases (ltb next x.amount)) [
    | inl later ↦ rw later (process_exits-Holds next xs s h k)
    | inr due ↦ rw due (
        process_exits-Holds next xs _ (exit_validator-IsSound cfg x.owner s h)
          (exit_validator-Holds x.owner s h k))
  ]

  pub on_finalize-Stakes :
      (n : ℕ) (s : State L)
      → IsBacked laws.reserved s
      → Ends (Stakes laws.reserved) (on_finalize cfg n s)
  unfolding on_finalize end_round execute_delayed_validator_exits
  on_finalize-Stakes n s h =
      Ends-or_panic _ _ _ (λ e. (h.exact, h.stakes))
        λ rest e.
          Ends-if (rest == 0) _ _ _
            (λ last. Ends-gets _ _ _ (
              Ends-then _ _ _ (
                Ends-then _ _ _ (
                  let next = add_u32 s.round 1 in
                  let after = pay_stakers cfg next s in
                  let ended = execute_delayed_validator_exits cfg next after in
                  let paid = pay_stakers-SameStakes cfg next s in
                  let sound : IsSound after =
                    (SameStakes-IsMatched paid h.matched, rw paid.nominators h.exact) in
                  let held : Holds after =
                    rw (paid.candidates, paid.nominators)
                      (Backed-ext h.stakes (λ a. refl)
                        (pay_stakers-SameReserved cfg laws next s).same) in
                  let exact = (process_exits-IsSound cfg next after.exit_queue after sound).1 in
                  let settled = process_exits-Holds next after.exit_queue after sound held in
                  Ends-call (SameStakers ended) _ _ _ (best_candidates-SameStakers _ cfg _)
                    (λ e t q. rw (q.0, q.1, q.2) (exact, settled))
                    (λ t q. rw (q.0, q.1, q.2) (exact, settled))
                    λ counts t q.
                      Ends-then _ _ _ (Ends-event _ _ (rw (q.0, q.1, q.2) (exact, settled)))))))
            (λ inside. Ends-pure _ _ (h.exact, h.stakes))
