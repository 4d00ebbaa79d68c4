-- ===== src/Stake/Limits/Histories.antt =====
-- The genesis build and the histories of pallets/stake/src/lib.rs and the number of nominations.
use moonbeam.Base.{
  ℕ, ◌≡◌, ◌≤◌, ◌<◌, Option, none, some, List, [], ◌∷◌, arith, length, Option-cases, inl, inr,
}
use moonbeam.Base.Map
use moonbeam.Stake.Types.{Nominator as Nominations}
use moonbeam.Stake.Storage.{Config, State, Result}
use moonbeam.Stake.Storage.Ends.{
  Ends-gets, Ends-then, Ends-modify, Ends-event, Ends-also, Ends-call, Ends-pure,
  Ends-or_panic_last,
}
use moonbeam.Stake.Payouts.Frame.{note_author-SameStakes}
use moonbeam.Stake.Rounds.{genesis_call, genesis_staker, genesis_stakers, genesis_build}
use moonbeam.Stake.Limits.{IsLimited, Limits, nominations_in}
use moonbeam.Stake.Limits.Candidates.{
  set_staking_expectations-Limits, set_inflation-Limits, join_candidates-Limits,
  leave_candidates-Limits, go_offline-Limits, go_online-Limits, candidate_bond_more-Limits,
  candidate_bond_less-Limits,
}
use moonbeam.Stake.Limits.Nominators.{
  join_nominators-Limits, leave_nominators-Limits, nominate_new-Limits, switch_nomination-Limits,
  revoke_nomination-Limits, nominator_bond_more-Limits, nominator_bond_less-Limits,
}
use moonbeam.Stake.Runs.{Step, step, run}
use moonbeam.Stake.Limits.Hooks.{
  SameStakes-IsLimited, best_candidates-Limits, on_finalize-Limits, ignore_error-Limits,
}

length-nominations_in :
    {max : ℕ} (m : Map.Map Nominations) (a : ℕ)
    → IsLimited max m
    → length (nominations_in (Map.lookup a m)) ≤ max
length-nominations_in m a h = elim (Option-cases (Map.lookup a m)) [
  | inl e ↦ rw e (omega arith)
  | inr (n, e) ↦ rw e (h a n e)
]

module _ {L : Type 0} (cfg : Config L) (positive : 0 < cfg.max_validators_per_nominator) where
  abbrev Kept : State L → Type 0
  Kept s = IsLimited cfg.max_validators_per_nominator s.nominators

  abbrev Keeps : {A : Type 0} → Result A × State L → Type 0
  Keeps = Limits cfg.max_validators_per_nominator

  step-Limits : (x : Step L) (s : State L) → Kept s → Keeps (step cfg x s)
  unfolding step
  step-Limits (Step.set_staking_expectations origin r) s h =
      set_staking_expectations-Limits s h origin r
  step-Limits (Step.set_inflation origin r) s h = set_inflation-Limits s h cfg origin r
  step-Limits (Step.join_candidates origin fee bond) s h =
      join_candidates-Limits s h cfg origin fee bond
  step-Limits (Step.leave_candidates origin) s h = leave_candidates-Limits s h cfg origin
  step-Limits (Step.go_offline origin) s h = go_offline-Limits s h origin
  step-Limits (Step.go_online origin) s h = go_online-Limits s h origin
  step-Limits (Step.candidate_bond_more origin more) s h =
      candidate_bond_more-Limits s h cfg origin more
  step-Limits (Step.candidate_bond_less origin less) s h =
      candidate_bond_less-Limits s h cfg origin less
  step-Limits (Step.join_nominators origin v amount) s h =
      join_nominators-Limits cfg s h positive origin v amount
  step-Limits (Step.leave_nominators origin) s h = leave_nominators-Limits s h cfg origin
  step-Limits (Step.nominate_new origin v amount) s h = nominate_new-Limits cfg s h origin v amount
  step-Limits (Step.switch_nomination origin old new) s h =
      switch_nomination-Limits s h origin old new
  step-Limits (Step.revoke_nomination origin v) s h = revoke_nomination-Limits s h cfg origin v
  step-Limits (Step.nominator_bond_more origin c more) s h =
      nominator_bond_more-Limits s h cfg origin c more
  step-Limits (Step.nominator_bond_less origin c less) s h =
      nominator_bond_less-Limits s h cfg origin c less
  step-Limits (Step.note_author author) s h =
      Ends-modify _ _ (SameStakes-IsLimited (note_author-SameStakes author s) h)
  step-Limits (Step.on_finalize n) s h = on_finalize-Limits cfg n s h
  step-Limits (Step.ledger_changes l) s h = Ends-modify _ _ h

  run-Kept : (xs : List (Step L)) (s : State L) → Kept s → Kept (run cfg xs s)
  unfolding run
  run-Kept [] s h = h
  run-Kept (x ∷ xs) s h = run-Kept xs _ (step-Limits x s h).holds

  genesis_stakers-Limits :
      (xs : List (ℕ × Option ℕ × ℕ)) (s : State L) → Kept s → Keeps (genesis_stakers cfg xs s)
  unfolding genesis_stakers genesis_staker genesis_call
  genesis_stakers-Limits [] s h = Ends-pure _ _ h
  genesis_stakers-Limits ((actor, opt_val, balance) ∷ xs) s h =
      Ends-also _ _ _
        (Ends-gets _ _ _ (
          Ends-also _ _ _ (Ends-or_panic_last _ _ h (λ a. h))
            λ t k. ignore_error-Limits _ t (call opt_val t k)))
        λ t k. genesis_stakers-Limits xs t k
    where
      call : (o : Option ℕ) (t : State L) → Kept t → Keeps (genesis_call cfg actor o balance t)
      call none t k = join_candidates-Limits t k cfg (some actor) 0 balance
      call (some v) t k = join_nominators-Limits cfg t k positive (some actor) v balance

  genesis_build-Limits :
      (xs : List (ℕ × Option ℕ × ℕ)) (s : State L) → Kept s → Keeps (genesis_build cfg xs s)
  unfolding genesis_build
  genesis_build-Limits xs s h = Ends-also _ _ _ (genesis_stakers-Limits xs s h) λ t k.
      Ends-call _ _ _ _ (best_candidates-Limits cfg 1 t k) (λ e u q. q) (λ u q. q)
        λ counts u q. Ends-then _ _ _ (Ends-event _ _ q)

  blank-Kept : (s : State L) → s.nominators ≡ [] → Kept s
  unfolding Map.lookup
  blank-Kept s blank = rw blank (λ a n e. cc)

  -- If `MaxValidatorsPerNominator` is at least one, then after the genesis build on a storage without
  -- nominators and any history of dispatchables, hooks and changes of the ledger elsewhere, whether
  -- they succeed, fail or panic, every nominator has at most `MaxValidatorsPerNominator` nominations.
  pub length-run :
      (stakers : List (ℕ × Option ℕ × ℕ)) (xs : List (Step L)) (s : State L)
      → s.nominators ≡ []
      → (a : ℕ)
      → length
          (nominations_in (Map.lookup a (run cfg xs (genesis_build cfg stakers s).1).nominators))
        ≤ cfg.max_validators_per_nominator
  length-run stakers xs s blank a =
      length-nominations_in _ a
        (run-Kept xs _ (genesis_build-Limits stakers s (blank-Kept s blank)).holds)
