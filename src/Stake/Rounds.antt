-- ===== src/Stake/Rounds.antt =====
-- `on_finalize`, the delayed exits, the choice of validators and the genesis build of
-- pallets/stake/src/lib.rs.
pub mod Exits
pub mod Snapshots
pub mod Selection
pub mod Finalize
use mathlib.Core.List.{reverse}
use moonbeam.Base.{
  ℕ, List, [], ◌∷◌, ◌++◌, map, Bool, Option, none, some, ltb, leb, ◌==◌, if◌then◌else◌, add_u32,
  add_u128, sub_u128, take,
}
use moonbeam.Base.Map
use moonbeam.OrderedSet
use moonbeam.Stake.Types.{Bond, owner_of, ValidatorSnapshot, Validator as Candidate, Event}
use moonbeam.Stake.Validator.{snapshot}
use moonbeam.Stake.Nominator
use moonbeam.Stake.Storage.{
  Config, State, Result, ok, err, panicked, M, Call, pure, gets, panic, or_panic, modify,
  deposit_event, checked_rem, ◌>>=◌, ◌>>◌,
}
use moonbeam.Stake.CandidateCalls.{join_candidates}
use moonbeam.Stake.NominatorCalls.{join_nominators}
use moonbeam.Stake.Payouts.{set_at, set_at2, pay_stakers}

module _ {L : Type 0} where
  -- `let _ = call`: an error is dropped, a panic is not.
  abbrev pub forget_error : Result (Unit {0}) × State L → Result (Unit {0}) × State L
  forget_error (ok a, s) = (ok tt, s)
  forget_error (err e, s) = (ok tt, s)
  forget_error (panicked, s) = (panicked, s)

  unfoldable pub ignore_error : Call L → Call L
  ignore_error call s = forget_error (call s)

  -- The removal of a nomination whose validator exits.
  unfoldable pub drop_nomination : ℕ → ℕ → State L → State L
  drop_nomination validator owner s = elim (Map.lookup owner s.nominators) [
    | none ↦ s
    | some nominator ↦
        let (nominator', removed) = Nominator.rm_nomination validator nominator in
        elim removed [
          | none ↦ s
          | some remaining ↦
              if remaining == 0
              then record s { nominators = Map.remove owner s.nominators }
              else record s { nominators = Map.insert owner nominator' s.nominators }
        ]
  ]

  -- The loop that takes the snapshots; `all_validators` and `total` are its variables.
  unfoldable pub snapshot_each : ℕ → List ℕ → ℕ → ℕ → M L (ℕ × ℕ)
  snapshot_each next [] all_validators total = pure (all_validators, total)
  snapshot_each next (account ∷ accounts) all_validators total = do
    found ← gets (λ s. Map.lookup account s.candidates)
    state ← or_panic found
    modify (λ s. record s { at_stake = set_at2 next account (snapshot state) s.at_stake })
    deposit_event (Event.validator_chosen next account state.total)
    snapshot_each next accounts (add_u32 all_validators 1) (add_u128 total state.total)

module _ {L : Type 0} (cfg : Config L) where
  -- The loop over the nominators of an exiting validator.
  unfoldable pub release_nominators : ℕ → List Bond → State L → State L
  release_nominators validator [] s = s
  release_nominators validator (b ∷ bonds) s = release_nominators validator bonds (
      drop_nomination validator b.owner
        (record s { ledger = cfg.unreserve b.owner b.amount s.ledger }))

  -- One exit that is due.
  unfoldable pub exit_validator : ℕ → State L → State L
  exit_validator owner s = elim (Map.lookup owner s.candidates) [
    | none ↦ s
    | some state ↦
        let s' = release_nominators owner state.nominators s in
        let new_total = sub_u128 s'.total state.total in
        record s' {
          ledger = cfg.unreserve state.id state.bond s'.ledger;
          total = new_total;
          candidates = Map.remove owner s'.candidates;
          events = s'.events ++ Event.validator_left owner state.total new_total ∷ [];
        }
  ]

  -- The `filter_map` over the exit queue: the exits that remain, and the state.
  unfoldable pub process_exits : ℕ → List Bond → State L → List Bond × State L
  process_exits next [] s = ([], s)
  process_exits next (x ∷ xs) s =
      let later = ltb next x.amount in
      let (remaining, s') = process_exits next xs (if later then s else exit_validator x.owner s) in
      (if later then x ∷ remaining else remaining, s')

  unfoldable pub execute_delayed_validator_exits : ℕ → State L → State L
  execute_delayed_validator_exits next s =
      let (remain_exits, s') = process_exits next s.exit_queue s in
      record s' { exit_queue = OrderedSet.from owner_of remain_exits }

  -- The top `max_validators` of the pool, by stake.
  unfoldable pub select : List Bond → List ℕ
  select pool = map owner_of (take cfg.max_validators (reverse (cfg.sort_unstable_by_amount pool)))

  unfoldable pub best_candidates_become_validators : ℕ → M L (ℕ × ℕ)
  unfolding snapshot_each select
  best_candidates_become_validators next = do
    validators ← gets (λ s. select s.candidate_pool)
    chosen ← snapshot_each next validators 0 0
    modify (λ s. record s { validators = OrderedSet.sort (λ (a : ℕ). a) validators })
    pure chosen

  -- The body of `on_finalize` at the last block of a round.
  unfoldable pub end_round : ℕ → Call L
  end_round n = do
    next ← gets (λ s. add_u32 s.round 1)
    modify (pay_stakers cfg next)
    modify (execute_delayed_validator_exits next)
    (validator_count, total_staked) ← best_candidates_become_validators next
    modify (λ s. record s { round = next; staked = set_at next s.total s.staked })
    deposit_event (Event.new_round n next validator_count total_staked)

  unfoldable pub on_finalize : ℕ → Call L
  on_finalize n = do
    rest ← or_panic (checked_rem n cfg.blocks_per_round)
    if rest == 0 then end_round n else pure tt

  -- The call for one staker of the genesis configuration.
  unfoldable pub genesis_call : ℕ → Option ℕ → ℕ → Call L
  genesis_call actor (some nominated_val) balance =
      join_nominators cfg (some actor) nominated_val balance
  genesis_call actor none balance = join_candidates cfg (some actor) 0 balance

  -- The body of the loop over the stakers: an `assert!`, and a call whose error is dropped.
  unfoldable pub genesis_staker : ℕ × Option ℕ × ℕ → Call L
  unfolding genesis_call
  genesis_staker (actor, opt_val, balance) = do
    funds ← gets (λ s. cfg.free_balance actor s.ledger)
    or_panic (if leb balance funds then some tt else none)
    ignore_error (genesis_call actor opt_val balance)

  unfoldable pub genesis_stakers : List (ℕ × Option ℕ × ℕ) → Call L
  unfolding genesis_staker
  genesis_stakers [] = pure tt
  genesis_stakers (staker ∷ stakers) = do genesis_staker staker; genesis_stakers stakers

  -- `build` of `add_extra_genesis`
  unfoldable pub genesis_build : List (ℕ × Option ℕ × ℕ) → Call L
  unfolding genesis_stakers
  genesis_build stakers = do
    genesis_stakers stakers
    (v_count, total_staked) ← best_candidates_become_validators 1
    modify (λ s. record s { round = 1; staked = set_at 1 s.total s.staked })
    deposit_event (Event.new_round 0 1 v_count total_staked)
