-- ===== src/Stake/SidesTests.antt =====
-- A history with a switch, an exit and the ends of rounds, and the two sides of its nominations.
use moonbeam.Base.{
  ℕ, ◌≡◌, ◌<◌, refl, none, some, Option, List, [], ◌∷◌, arith, ◌==◌, if◌then◌else◌, take, get_elem?,
  insert_at, remove_at, ltb, leb,
}
use moonbeam.Base
use moonbeam.Base.Map
use moonbeam.OrderedSet
use moonbeam.Stake.Types.{Nominator as Nominations}
use moonbeam.Stake.Validator
use moonbeam.Stake.Validator.Bonds.{sum}
use moonbeam.Stake.Nominator
use moonbeam.Stake.Inflation
use moonbeam.Stake.Storage
use moonbeam.Stake.Storage.{State}
use moonbeam.Stake.Example
use moonbeam.Stake.Example.{config, blank}
use moonbeam.Stake.CandidateCalls
use moonbeam.Stake.NominatorCalls
use moonbeam.Stake.Payouts
use moonbeam.Stake.Rounds
use moonbeam.Stake.Rounds.{genesis_build}
use moonbeam.Stake.Runs.{Step, step, run}
use moonbeam.Stake.Sides.{IsMatched}
use moonbeam.Stake.Sides.Leaving.{Left, leave_nominators-Left}
use moonbeam.Stake.Sides.Exits.{IsExact, AllExact}
use moonbeam.Stake.Sides.Histories.{Allowed, AllAllowed, run-IsMatched}

abbrev stakers : List (ℕ × Option ℕ × ℕ)
stakers = (7, none, 20) ∷ (8, none, 30) ∷ (9, some 7, 6) ∷ []

abbrev history : List (Step ℕ)
history =
    Step.join_candidates (some 5) 0 25
    ∷ Step.nominate_new (some 9) 8 4
    ∷ Step.switch_nomination (some 9) 7 5
    ∷ Step.on_finalize 5
    ∷ Step.leave_candidates (some 8)
    ∷ Step.on_finalize 10
    ∷ Step.on_finalize 15
    ∷ []

abbrev started : State ℕ
started = (genesis_build config stakers blank).1

-- The nominator from the switch to the exit, and after it.
abbrev of_two : Nominations
of_two = record {
  nominations = record { owner = 5; amount = 6 } ∷ record { owner = 8; amount = 4 } ∷ [];
  total = 10;
}

abbrev of_one : Nominations
of_one = record { nominations = record { owner = 5; amount = 6 } ∷ []; total = 6 }

of_two-IsExact : IsExact of_two
unfolding sum
of_two-IsExact = record {
  exact = refl;
  fits = omega arith;
  positive = (omega arith, (omega arith, tt));
}

single-AllExact : (k : ℕ) (n : Nominations) → IsExact n → AllExact ((k, n) ∷ [])
unfolding Map.lookup
single-AllExact k n h a m found = ground (arith, h)

blank-IsBlank : (blank.candidates ≡ []) × (blank.nominators ≡ [])
unfolding blank
blank-IsBlank = (refl, refl)

history-AllAllowed : AllAllowed config history started
unfolding config blank Map.lookup Map.insert Map.remove genesis_build Rounds.genesis_stakers
    Rounds.genesis_staker Rounds.genesis_call Rounds.ignore_error
    Rounds.best_candidates_become_validators Rounds.snapshot_each Rounds.select
    CandidateCalls.join_candidates NominatorCalls.join_nominators
    NominatorCalls.nominator_joins_validator CandidateCalls.is_nominator CandidateCalls.is_candidate
    CandidateCalls.update_active CandidateCalls.update_pool Nominator.new Validator.new
    OrderedSet.insert OrderedSet.binary_search OrderedSet.search_loop OrderedSet.search_end
    OrderedSet.probe OrderedSet.from OrderedSet.sort OrderedSet.sort_insert OrderedSet.dedup
    OrderedSet.dedup_after OrderedSet.remove Storage.gets Storage.ok_or Storage.ensure
    Storage.ensure_signed Storage.modify Storage.deposit_event Storage.reserve Storage.pure
    Storage.or_panic Storage.◌>>=◌ Storage.◌>>◌ Example.sort_amounts Example.place Base.add_u128
    Rounds.on_finalize Rounds.end_round Rounds.execute_delayed_validator_exits Rounds.process_exits
    Payouts.pay_stakers Base.add_u32 CandidateCalls.leave_candidates
    NominatorCalls.switch_nomination NominatorCalls.nominate_new Nominator.add_nomination
    Nominator.swap_nomination Nominator.swap_into Nominator.last_amount
    NominatorCalls.receive_nomination Validator.add_nominator Validator.rm_nominator
    Validator.subtract_owned Validator.without Base.sub_u128 CandidateCalls.pool_without
    CandidateCalls.remove_from_pool Nominator.rm_nomination Rounds.drop_nomination
    Rounds.exit_validator Rounds.release_nominators Storage.unreserve Payouts.pay_round
    Payouts.pay_each Inflation.compute_issuance OrderedSet.find step AllAllowed Allowed
history-AllAllowed =
    let exact = single-AllExact 9 of_two of_two-IsExact in
    (tt, (tt, (refl, (exact, (tt, (exact, (exact, tt)))))))

abbrev reached : State ℕ
reached = run config history started

reached-IsMatched : IsMatched reached
reached-IsMatched =
    run-IsMatched config stakers history blank blank-IsBlank.0 blank-IsBlank.1 history-AllAllowed

reached-found : Map.lookup 9 reached.nominators ≡ some of_one
unfolding config blank Map.lookup Map.insert Map.remove genesis_build Rounds.genesis_stakers
    Rounds.genesis_staker Rounds.genesis_call Rounds.ignore_error
    Rounds.best_candidates_become_validators Rounds.snapshot_each Rounds.select
    CandidateCalls.join_candidates NominatorCalls.join_nominators
    NominatorCalls.nominator_joins_validator CandidateCalls.is_nominator CandidateCalls.is_candidate
    CandidateCalls.update_active CandidateCalls.update_pool Nominator.new Validator.new
    OrderedSet.insert OrderedSet.binary_search OrderedSet.search_loop OrderedSet.search_end
    OrderedSet.probe OrderedSet.from OrderedSet.sort OrderedSet.sort_insert OrderedSet.dedup
    OrderedSet.dedup_after OrderedSet.remove Storage.gets Storage.ok_or Storage.ensure
    Storage.ensure_signed Storage.modify Storage.deposit_event Storage.reserve Storage.pure
    Storage.or_panic Storage.◌>>=◌ Storage.◌>>◌ Example.sort_amounts Example.place Base.add_u128
    Rounds.on_finalize Rounds.end_round Rounds.execute_delayed_validator_exits Rounds.process_exits
    Payouts.pay_stakers Base.add_u32 CandidateCalls.leave_candidates
    NominatorCalls.switch_nomination NominatorCalls.nominate_new Nominator.add_nomination
    Nominator.swap_nomination Nominator.swap_into Nominator.last_amount
    NominatorCalls.receive_nomination Validator.add_nominator Validator.rm_nominator
    Validator.subtract_owned Validator.without Base.sub_u128 CandidateCalls.pool_without
    CandidateCalls.remove_from_pool Nominator.rm_nomination Rounds.drop_nomination
    Rounds.exit_validator Rounds.release_nominators Storage.unreserve Payouts.pay_round
    Payouts.pay_each Inflation.compute_issuance OrderedSet.find step run Base.sub_u32
reached-found = refl

leave_nominators-Left_example :
    Left config 9
      (NominatorCalls.leave_nominators config (some 9) reached).0
      (NominatorCalls.leave_nominators config (some 9) reached).1
leave_nominators-Left_example =
    leave_nominators-Left config reached reached-IsMatched 9 of_one reached-found
