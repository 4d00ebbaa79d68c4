-- ===== src/Stake/Runs.antt =====
-- The pallet over time: every dispatchable and hook of pallets/stake/src/lib.rs as one kind of
-- step, and histories of steps. Between the steps other pallets may change the ledger at will.
pub mod Consistent
use moonbeam.Base.{ℕ, Bool, Option, List, [], ◌∷◌, none, some}
use moonbeam.Stake.Types.{Range}
use moonbeam.Stake.Storage.{Config, State, Result, ok, err, panicked, Call, modify}
use moonbeam.Stake.Admin
use moonbeam.Stake.CandidateCalls
use moonbeam.Stake.NominatorCalls
use moonbeam.Stake.Payouts
use moonbeam.Stake.Rounds

-- A transaction, with what its origin check finds, a hook, or a change of the ledger elsewhere.
pub data Step (L : Type 0) : Type 0 where
  set_staking_expectations set_inflation : Bool → Range → Step L
  join_candidates : Option ℕ → ℕ → ℕ → Step L
  leave_candidates go_offline go_online : Option ℕ → Step L
  candidate_bond_more candidate_bond_less : Option ℕ → ℕ → Step L
  join_nominators : Option ℕ → ℕ → ℕ → Step L
  leave_nominators : Option ℕ → Step L
  nominate_new switch_nomination : Option ℕ → ℕ → ℕ → Step L
  revoke_nomination : Option ℕ → ℕ → Step L
  nominator_bond_more nominator_bond_less : Option ℕ → ℕ → ℕ → Step L
  note_author on_finalize : ℕ → Step L
  ledger_changes : L → Step L

module _ {L : Type 0} (cfg : Config L) where
  unfoldable pub step : Step L → Call L
  step (set_staking_expectations origin expectations) =
      Admin.set_staking_expectations origin expectations
  step (set_inflation origin schedule) = Admin.set_inflation cfg origin schedule
  step (join_candidates origin fee bond) = CandidateCalls.join_candidates cfg origin fee bond
  step (leave_candidates origin) = CandidateCalls.leave_candidates cfg origin
  step (go_offline origin) = CandidateCalls.go_offline origin
  step (go_online origin) = CandidateCalls.go_online origin
  step (candidate_bond_more origin more) = CandidateCalls.candidate_bond_more cfg origin more
  step (candidate_bond_less origin less) = CandidateCalls.candidate_bond_less cfg origin less
  step (join_nominators origin validator amount) =
      NominatorCalls.join_nominators cfg origin validator amount
  step (leave_nominators origin) = NominatorCalls.leave_nominators cfg origin
  step (nominate_new origin validator amount) =
      NominatorCalls.nominate_new cfg origin validator amount
  step (switch_nomination origin old new) = NominatorCalls.switch_nomination origin old new
  step (revoke_nomination origin validator) = NominatorCalls.revoke_nomination cfg origin validator
  step (nominator_bond_more origin candidate more) =
      NominatorCalls.nominator_bond_more cfg origin candidate more
  step (nominator_bond_less origin candidate less) =
      NominatorCalls.nominator_bond_less cfg origin candidate less
  step (note_author author) = modify (Payouts.note_author author)
  step (on_finalize n) = Rounds.on_finalize cfg n
  step (ledger_changes l) = modify (λ s. record s { ledger = l })

  -- An error leaves the state that the call ended with.
  unfoldable pub run : List (Step L) → State L → State L
  unfolding step
  run [] s = s
  run (x ∷ xs) s = run xs (step x s).1
