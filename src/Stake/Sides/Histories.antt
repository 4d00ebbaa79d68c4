-- ===== src/Stake/Sides/Histories.antt =====
-- The two sides of every nomination agree through the histories of pallets/stake/src/lib.rs in which
-- switches go to validators not nominated yet and rounds end with exact totals of the nominators.
use moonbeam.Base.{ℕ, ◌≡◌, refl, Option, none, some, List, [], ◌∷◌}
use mathlib.Core.Path.{subst}
use moonbeam.Base.Map
use moonbeam.OrderedSet.{find}
use moonbeam.Stake.Storage.{Config, State, Result, ok, err, panicked, Call}
use moonbeam.Stake.Storage.Ends.{
  Ends-gets, Ends-then, Ends-modify, Ends-event, Ends-also, Ends-call, Ends-pure,
  Ends-or_panic_last,
}
use moonbeam.Stake.Payouts.Frame.{note_author-SameStakes}
use moonbeam.Stake.Rounds.{
  forget_error, ignore_error, genesis_call, genesis_staker, genesis_stakers, genesis_build,
}
use moonbeam.Stake.Rounds.Snapshots.{SameStakers, best_candidates-SameStakers}
use moonbeam.Stake.Sides.{amount_for, IsMatched, nominating}
use moonbeam.Stake.Sides.Candidates.{
  Matches, set_staking_expectations-Matches, set_inflation-Matches, join_candidates-Matches,
  leave_candidates-Matches, go_offline-Matches, go_online-Matches, candidate_bond_more-Matches,
  candidate_bond_less-Matches,
}
use moonbeam.Stake.Sides.Nominators.{
  join_nominators-Matches, nominate_new-Matches, nominator_bond_more-Matches,
  nominator_bond_less-Matches,
}
use moonbeam.Stake.Sides.Leaving.{leave_nominators-Matches, revoke_nomination-Matches}
use moonbeam.Stake.Sides.Switching.{switch_nomination-Matches}
use moonbeam.Stake.Sides.Exits.{AllExact}
use moonbeam.Stake.Sides.Rounds.{on_finalize-Matches, SameStakes-IsMatched}
use moonbeam.Stake.Runs.{Step, step, run}

module _ {L : Type 0} where
  -- The signer, if there is one, has no nomination of the validator.
  abbrev pub Vacant : Option ℕ → ℕ → State L → Type 0
  Vacant none validator s = Unit
  Vacant (some acc) validator s = amount_for validator (nominating s.nominators acc) ≡ none

  -- What is asked of a switch and of the end of a block.
  unfoldable pub Allowed : Step L → State L → Type 0
  Allowed (Step.set_staking_expectations origin r) s = Unit
  Allowed (Step.set_inflation origin r) s = Unit
  Allowed (Step.join_candidates origin fee bond) s = Unit
  Allowed (Step.leave_candidates origin) s = Unit
  Allowed (Step.go_offline origin) s = Unit
  Allowed (Step.go_online origin) s = Unit
  Allowed (Step.candidate_bond_more origin more) s = Unit
  Allowed (Step.candidate_bond_less origin less) s = Unit
  Allowed (Step.join_nominators origin v amount) s = Unit
  Allowed (Step.leave_nominators origin) s = Unit
  Allowed (Step.nominate_new origin v amount) s = Unit
  Allowed (Step.switch_nomination origin old new) s = Vacant origin new s
  Allowed (Step.revoke_nomination origin v) s = Unit
  Allowed (Step.nominator_bond_more origin c more) s = Unit
  Allowed (Step.nominator_bond_less origin c less) s = Unit
  Allowed (Step.note_author author) s = Unit
  Allowed (Step.on_finalize n) s = AllExact s.nominators
  Allowed (Step.ledger_changes l) s = Unit

  pub signer-Vacant :
      (origin : Option ℕ) (validator : ℕ) (s : State L)
      → Vacant origin validator s
      → (acc : ℕ) → origin ≡ some acc
      → amount_for validator (nominating s.nominators acc) ≡ none
  signer-Vacant origin validator s vacant acc signed =
      subst (λ o. Vacant o validator s) signed vacant

module _ {L : Type 0} (cfg : Config L) where
  unfoldable pub AllAllowed : List (Step L) → State L → Type 0
  AllAllowed [] s = Unit
  AllAllowed (x ∷ xs) s = Allowed x s × AllAllowed xs (step cfg x s).1

  pub step-Matches : (x : Step L) (s : State L) → IsMatched s → Allowed x s → Matches (step cfg x s)
  unfolding step Allowed
  step-Matches (Step.set_staking_expectations origin r) s h a =
      set_staking_expectations-Matches s h origin r
  step-Matches (Step.set_inflation origin r) s h a = set_inflation-Matches s h cfg origin r
  step-Matches (Step.join_candidates origin fee bond) s h a =
      join_candidates-Matches s h cfg origin fee bond
  step-Matches (Step.leave_candidates origin) s h a = leave_candidates-Matches s h cfg origin
  step-Matches (Step.go_offline origin) s h a = go_offline-Matches s h origin
  step-Matches (Step.go_online origin) s h a = go_online-Matches s h origin
  step-Matches (Step.candidate_bond_more origin more) s h a =
      candidate_bond_more-Matches s h cfg origin more
  step-Matches (Step.candidate_bond_less origin less) s h a =
      candidate_bond_less-Matches s h cfg origin less
  step-Matches (Step.join_nominators origin v amount) s h a =
      join_nominators-Matches cfg s h origin v amount
  step-Matches (Step.leave_nominators origin) s h a = leave_nominators-Matches cfg s h origin
  step-Matches (Step.nominate_new origin v amount) s h a =
      nominate_new-Matches cfg s h origin v amount
  step-Matches (Step.switch_nomination origin old new) s h a =
      switch_nomination-Matches s h origin old new (signer-Vacant origin new s a)
  step-Matches (Step.revoke_nomination origin v) s h a = revoke_nomination-Matches cfg s h origin v
  step-Matches (Step.nominator_bond_more origin c more) s h a =
      nominator_bond_more-Matches cfg s h origin c more
  step-Matches (Step.nominator_bond_less origin c less) s h a =
      nominator_bond_less-Matches cfg s h origin c less
  step-Matches (Step.note_author author) s h a =
      Ends-modify _ _ (SameStakes-IsMatched (note_author-SameStakes author s) h)
  step-Matches (Step.on_finalize n) s h a = on_finalize-Matches cfg n s h a
  step-Matches (Step.ledger_changes l) s h a = Ends-modify _ _ h

  run-Matched :
      (xs : List (Step L)) (s : State L) → IsMatched s → AllAllowed xs s → IsMatched (run cfg xs s)
  unfolding run AllAllowed
  run-Matched [] s h a = h
  run-Matched (x ∷ xs) s h a = run-Matched xs _ (step-Matches x s h a.0).holds a.1

  ignore_error-Matches : (m : Call L) (s : State L) → Matches (m s) → Matches (ignore_error m s)
  unfolding ignore_error
  ignore_error-Matches m s kept = go (m s).0 (m s).1 kept.holds
    where
      go : (r : Result (Unit {0})) (t : State L) → IsMatched t → Matches (forget_error (r, t))
      go (ok a) t h = record { holds = h }
      go (err e) t h = record { holds = h }
      go panicked t h = record { holds = h }

  genesis_call-Matches :
      (actor : ℕ) (opt_val : Option ℕ) (balance : ℕ) (s : State L)
      → IsMatched s
      → Matches (genesis_call cfg actor opt_val balance s)
  unfolding genesis_call
  genesis_call-Matches actor none balance s h =
      join_candidates-Matches s h cfg (some actor) 0 balance
  genesis_call-Matches actor (some v) balance s h =
      join_nominators-Matches cfg s h (some actor) v balance

  genesis_stakers-Matches :
      (xs : List (ℕ × Option ℕ × ℕ)) (s : State L)
      → IsMatched s
      → Matches (genesis_stakers cfg xs s)
  unfolding genesis_stakers genesis_staker
  genesis_stakers-Matches [] s h = Ends-pure _ _ h
  genesis_stakers-Matches ((actor, opt_val, balance) ∷ xs) s h =
      Ends-also _ _ _
        (Ends-gets _ _ _ (
          Ends-also _ _ _ (Ends-or_panic_last _ _ h (λ a. h))
            λ t k. ignore_error-Matches _ t (genesis_call-Matches actor opt_val balance t k)))
        λ t k. genesis_stakers-Matches xs t k

  genesis_build-Matches :
      (xs : List (ℕ × Option ℕ × ℕ)) (s : State L) → IsMatched s → Matches (genesis_build cfg xs s)
  unfolding genesis_build
  genesis_build-Matches xs s h = Ends-also _ _ _ (genesis_stakers-Matches xs s h) λ t k.
      Ends-call (SameStakers t) _ _ _ (best_candidates-SameStakers t cfg 1)
        (λ e u q. rw (q.0, q.1) k) (λ u q. rw (q.0, q.1) k)
        λ counts u q. Ends-then _ _ _ (Ends-event _ _ (rw (q.0, q.1) k))

  pub blank-IsMatched : (s : State L) → s.candidates ≡ [] → s.nominators ≡ [] → IsMatched s
  unfolding Map.lookup find
  blank-IsMatched s p q =
      rw (p, q)
        (record {
          listing_sorted = λ c. tt;
          nominating_sorted = λ a. tt;
          same_amount = λ c a. refl;
        })

  -- After the genesis build on a storage without candidates and nominators, and any history in which
  -- each switch goes to a validator that the signer has not nominated and each end of a block finds the
  -- totals of all nominators exact, an amount that a candidate lists of an account is the amount that the
  -- account has nominated it with, and the other way round.
  pub run-IsMatched :
      (stakers : List (ℕ × Option ℕ × ℕ)) (xs : List (Step L)) (s : State L)
      → s.candidates ≡ []
      → s.nominators ≡ []
      → AllAllowed xs (genesis_build cfg stakers s).1
      → IsMatched (run cfg xs (genesis_build cfg stakers s).1)
  run-IsMatched stakers xs s p q a =
      run-Matched xs _ (genesis_build-Matches stakers s (blank-IsMatched s p q)).holds a
