-- ===== src/Stake/Atomic/Steps.antt =====
-- Errors of every dispatchable of pallets/stake/src/lib.rs together.
use moonbeam.Stake.Storage.{Config, State}
use moonbeam.Stake.Storage.Ends.{Ends, Ends-modify}
use moonbeam.Stake.Atomic.{Atomic}
use moonbeam.Stake.Atomic.Candidates.{
  set_staking_expectations-Atomic, go_offline-Atomic, go_online-Atomic, join_candidates-Atomic,
  leave_candidates-Atomic, candidate_bond_more-Atomic, candidate_bond_less-Atomic,
}
use moonbeam.Stake.Atomic.Nominators.{
  switch_nomination-Atomic, join_nominators-Atomic, nominate_new-Atomic, revoke_nomination-Atomic,
  nominator_bond_more-Atomic, nominator_bond_less-Atomic,
}
use moonbeam.Stake.Runs.{Step, step}

-- The dispatchables but for `leave_nominators`, which writes in a loop, and `set_inflation`, which divides.
abbrev pub IsAtomicCall : {L : Type 0} → Step L → Type 0
IsAtomicCall (Step.set_inflation origin schedule) = ⊥
IsAtomicCall (Step.leave_nominators origin) = ⊥
IsAtomicCall (Step.on_finalize n) = ⊥
IsAtomicCall _ = Unit

module _ {L : Type 0} (cfg : Config L) where
  step-Ends : (x : Step L) (s : State L) → IsAtomicCall x → Ends (Atomic s) (step cfg x s)
  unfolding step
  step-Ends (Step.set_staking_expectations origin r) s h =
      set_staking_expectations-Atomic s origin r
  step-Ends (Step.set_inflation origin r) s h = absurd h
  step-Ends (Step.join_candidates origin fee bond) s h =
      join_candidates-Atomic cfg s origin fee bond
  step-Ends (Step.leave_candidates origin) s h = leave_candidates-Atomic cfg s origin
  step-Ends (Step.go_offline origin) s h = go_offline-Atomic s origin
  step-Ends (Step.go_online origin) s h = go_online-Atomic s origin
  step-Ends (Step.candidate_bond_more origin more) s h =
      candidate_bond_more-Atomic cfg s origin more
  step-Ends (Step.candidate_bond_less origin less) s h =
      candidate_bond_less-Atomic cfg s origin less
  step-Ends (Step.join_nominators origin v amount) s h =
      join_nominators-Atomic cfg s origin v amount
  step-Ends (Step.leave_nominators origin) s h = absurd h
  step-Ends (Step.nominate_new origin v amount) s h = nominate_new-Atomic cfg s origin v amount
  step-Ends (Step.switch_nomination origin old new) s h = switch_nomination-Atomic s origin old new
  step-Ends (Step.revoke_nomination origin v) s h = revoke_nomination-Atomic cfg s origin v
  step-Ends (Step.nominator_bond_more origin c more) s h =
      nominator_bond_more-Atomic cfg s origin c more
  step-Ends (Step.nominator_bond_less origin c less) s h =
      nominator_bond_less-Atomic cfg s origin c less
  step-Ends (Step.note_author author) s h = Ends-modify _ _ tt
  step-Ends (Step.on_finalize n) s h = absurd h
  step-Ends (Step.ledger_changes l) s h = Ends-modify _ _ tt

  -- A dispatchable other than `leave_nominators` and `set_inflation` never panics, and if it returns an
  -- error, from any state at all, the state is what it was before: ledger and events too.
  pub step-Atomic :
      (x : Step L) (s : State L) → IsAtomicCall x → Atomic s (step cfg x s).0 (step cfg x s).1
  step-Atomic x s h = (step-Ends x s h).holds
