-- ===== src/Stake/Backing/Steps.antt =====
-- Every step of pallets/stake/src/lib.rs keeps the reserved balances equal to the stakes, where switches
-- go to validators not nominated yet.
use moonbeam.Base.{ℕ, ◌<◌, ◌≡◌, refl}
use moonbeam.Stake.Storage.{Config, State}
use moonbeam.Stake.Storage.Ends.{Ends, Ends-modify}
use moonbeam.Stake.Payouts.{note_author}
use moonbeam.Stake.Backing.Changes.{Backed-ext}
use moonbeam.Stake.Payouts.Frame.{note_author-SameStakes}
use moonbeam.Stake.Sides.Histories.{Vacant, signer-Vacant, Allowed, step-Matches}
use moonbeam.Stake.Backing.{Reserves, Stakes, IsBacked}
use moonbeam.Stake.Backing.Candidates.{
  set_staking_expectations-Stakes, set_inflation-Stakes, join_candidates-Stakes,
  leave_candidates-Stakes, go_offline-Stakes, go_online-Stakes, candidate_bond_more-Stakes,
  candidate_bond_less-Stakes,
}
use moonbeam.Stake.Backing.Nominators.{
  join_nominators-Stakes, nominate_new-Stakes, nominator_bond_more-Stakes,
  nominator_bond_less-Stakes,
}
use moonbeam.Stake.Backing.Leaving.{leave_nominators-Stakes, revoke_nomination-Stakes}
use moonbeam.Stake.Backing.Switching.{switch_nomination-Stakes}
use moonbeam.Stake.Backing.Rounds.{on_finalize-Stakes}
use moonbeam.Stake.Runs.{Step, step}

note_author-ledger :
    {L : Type 0} (author : ℕ) (s : State L) → (note_author author s).ledger ≡ s.ledger
unfolding note_author
note_author-ledger author s = refl

module _ {L : Type 0} (reserved : ℕ → L → ℕ) where
  -- What is asked of a step: a switch goes to a validator that the signer has not nominated, and
  -- changes of the ledger elsewhere leave the reserved balances alone.
  unfoldable pub Fair : Step L → State L → Type 0
  Fair (Step.set_staking_expectations origin r) s = Unit
  Fair (Step.set_inflation origin r) s = Unit
  Fair (Step.join_candidates origin fee bond) s = Unit
  Fair (Step.leave_candidates origin) s = Unit
  Fair (Step.go_offline origin) s = Unit
  Fair (Step.go_online origin) s = Unit
  Fair (Step.candidate_bond_more origin more) s = Unit
  Fair (Step.candidate_bond_less origin less) s = Unit
  Fair (Step.join_nominators origin v amount) s = Unit
  Fair (Step.leave_nominators origin) s = Unit
  Fair (Step.nominate_new origin v amount) s = Unit
  Fair (Step.switch_nomination origin old new) s = Vacant origin new s
  Fair (Step.revoke_nomination origin v) s = Unit
  Fair (Step.nominator_bond_more origin c more) s = Unit
  Fair (Step.nominator_bond_less origin c less) s = Unit
  Fair (Step.note_author author) s = Unit
  Fair (Step.on_finalize n) s = Unit
  Fair (Step.ledger_changes l) s = (a : ℕ) → reserved a l ≡ reserved a s.ledger

  Fair-Allowed : (x : Step L) (s : State L) → IsBacked reserved s → Fair x s → Allowed x s
  unfolding Allowed Fair
  Fair-Allowed (Step.set_staking_expectations origin r) s h f = tt
  Fair-Allowed (Step.set_inflation origin r) s h f = tt
  Fair-Allowed (Step.join_candidates origin fee bond) s h f = tt
  Fair-Allowed (Step.leave_candidates origin) s h f = tt
  Fair-Allowed (Step.go_offline origin) s h f = tt
  Fair-Allowed (Step.go_online origin) s h f = tt
  Fair-Allowed (Step.candidate_bond_more origin more) s h f = tt
  Fair-Allowed (Step.candidate_bond_less origin less) s h f = tt
  Fair-Allowed (Step.join_nominators origin v amount) s h f = tt
  Fair-Allowed (Step.leave_nominators origin) s h f = tt
  Fair-Allowed (Step.nominate_new origin v amount) s h f = tt
  Fair-Allowed (Step.switch_nomination origin old new) s h f = f
  Fair-Allowed (Step.revoke_nomination origin v) s h f = tt
  Fair-Allowed (Step.nominator_bond_more origin c more) s h f = tt
  Fair-Allowed (Step.nominator_bond_less origin c less) s h f = tt
  Fair-Allowed (Step.note_author author) s h f = tt
  Fair-Allowed (Step.on_finalize n) s h f = h.exact
  Fair-Allowed (Step.ledger_changes l) s h f = tt

-- Minimums above zero, as the runtime sets them.
pub record HasMinimums {L : Type 0} (cfg : Config L) : Type 0 where
  pub nomination : 0 < cfg.min_nomination
  pub nominator : 0 < cfg.min_nominator_stk

module _ {L : Type 0} (cfg : Config L) (laws : Reserves cfg) (min : HasMinimums cfg) where
  step-Stakes :
      (x : Step L) (s : State L)
      → IsBacked laws.reserved s
      → Fair laws.reserved x s
      → Ends (Stakes laws.reserved) (step cfg x s)
  unfolding step Fair
  step-Stakes (Step.set_staking_expectations origin r) s h f =
      set_staking_expectations-Stakes laws.reserved s (h.exact, h.stakes) origin r
  step-Stakes (Step.set_inflation origin r) s h f =
      set_inflation-Stakes laws.reserved s (h.exact, h.stakes) cfg origin r
  step-Stakes (Step.join_candidates origin fee bond) s h f =
      join_candidates-Stakes cfg laws s (h.exact, h.stakes) origin fee bond
  step-Stakes (Step.leave_candidates origin) s h f =
      leave_candidates-Stakes laws.reserved s (h.exact, h.stakes) cfg origin
  step-Stakes (Step.go_offline origin) s h f =
      go_offline-Stakes laws.reserved s (h.exact, h.stakes) origin
  step-Stakes (Step.go_online origin) s h f =
      go_online-Stakes laws.reserved s (h.exact, h.stakes) origin
  step-Stakes (Step.candidate_bond_more origin more) s h f =
      candidate_bond_more-Stakes cfg laws s (h.exact, h.stakes) origin more
  step-Stakes (Step.candidate_bond_less origin less) s h f =
      candidate_bond_less-Stakes cfg laws s (h.exact, h.stakes) origin less
  step-Stakes (Step.join_nominators origin v amount) s h f =
      join_nominators-Stakes cfg laws s h min.nominator origin v amount
  step-Stakes (Step.leave_nominators origin) s h f = leave_nominators-Stakes cfg laws s h origin
  step-Stakes (Step.nominate_new origin v amount) s h f =
      nominate_new-Stakes cfg laws s h min.nomination origin v amount
  step-Stakes (Step.switch_nomination origin old new) s h f =
      switch_nomination-Stakes laws.reserved s h origin old new (signer-Vacant origin new s f)
  step-Stakes (Step.revoke_nomination origin v) s h f =
      revoke_nomination-Stakes cfg laws s h origin v
  step-Stakes (Step.nominator_bond_more origin c more) s h f =
      nominator_bond_more-Stakes cfg laws s h origin c more
  step-Stakes (Step.nominator_bond_less origin c less) s h f =
      nominator_bond_less-Stakes cfg laws s h origin c less
  step-Stakes (Step.note_author author) s h f =
      let same = note_author-SameStakes author s in
      Ends-modify _ _
        (rw (same.candidates, same.nominators, note_author-ledger author s) (h.exact, h.stakes))
  step-Stakes (Step.on_finalize n) s h f = on_finalize-Stakes cfg laws n s h
  step-Stakes (Step.ledger_changes l) s h f =
      Ends-modify _ _ (h.exact, Backed-ext h.stakes (λ a. refl) f)

  pub step-Backs :
      (x : Step L) (s : State L)
      → IsBacked laws.reserved s
      → Fair laws.reserved x s
      → IsBacked laws.reserved (step cfg x s).1
  step-Backs x s h f =
      let (exact, stakes) = (step-Stakes x s h f).holds in
      record {
        matched = (step-Matches cfg x s h.matched (Fair-Allowed laws.reserved x s h f)).holds;
        exact = exact;
        stakes = stakes;
      }
