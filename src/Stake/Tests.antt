-- ===== src/Stake/Tests.antt =====
-- Histories of the staking pallet, and its theorems on them.
use moonbeam.Base.{ℕ, ◌≡◌, ◌≢◌, refl, Option, none, some, List, [], ◌∷◌, map, arith}
use moonbeam.Base.Map
use moonbeam.OrderedSet
use moonbeam.Stake.Types.{Nominator, Bond, owner_of}
use moonbeam.Stake.Nominator
use moonbeam.Stake.Validator
use moonbeam.Stake.Validator.Totals.{
  Change, bonds_more, removed, added, updated, increased, decreased, apply, apply_all, AllAllowed,
  IsBalanced, apply_all-new,
}
use moonbeam.Stake.Atomic.{Atomic}
use moonbeam.Stake.Atomic.Steps.{step-Atomic}
use moonbeam.Stake.Locked.{bond_step, of_nominator_more, step-total}
use moonbeam.Stake.Nominator.Swap.{Swaps, swap_nomination-Swaps}
use moonbeam.Stake.Storage.{State, ok}
use moonbeam.Stake.Example.{config, blank, sort_amounts, sort_amounts-SortsByAmount}
use moonbeam.Stake.Agrees.{IsConsistent}
use moonbeam.Stake.Rounds.{genesis_build, select, on_finalize, execute_delayed_validator_exits}
use moonbeam.Stake.Rounds.Selection.{SortsByAmount, Best, chosen, left_out, select-Best}
use moonbeam.Stake.Rounds.Exits.{after_exits, lookup-execute_delayed_validator_exits}
use moonbeam.Stake.Rounds.Finalize.{Finalized, on_finalize-Finalized}
use moonbeam.Stake.Runs.{Step, step, run}
use moonbeam.Stake.Runs.Consistent.{IsBlank, run-IsConsistent}

config-running : config.blocks_per_round ≢ 0
unfolding config
config-running e = ground arith

config-sorts : SortsByAmount config.sort_unstable_by_amount
unfolding config sort_amounts
config-sorts = sort_amounts-SortsByAmount

blank-IsBlank : IsBlank blank
unfolding blank
blank-IsBlank = record { candidates = refl; candidate_pool = refl; exit_queue = refl }

-- Two candidates, and a nominator of the first.
abbrev stakers : List (ℕ × Option ℕ × ℕ)
stakers = (7, none, 20) ∷ (8, none, 30) ∷ (9, some 7, 6) ∷ []

abbrev history : List (Step ℕ)
history =
    Step.note_author 7
    ∷ Step.join_candidates (some 5) 0 25
    ∷ Step.nominate_new (some 9) 8 4
    ∷ Step.leave_candidates (some 8)
    ∷ Step.on_finalize 5
    ∷ Step.candidate_bond_more (some 7) 4
    ∷ Step.on_finalize 10
    ∷ Step.on_finalize 15
    ∷ []

abbrev reached : State ℕ
reached = run config history (genesis_build config stakers blank).1

run-IsConsistent_example :
    IsConsistent reached × ((step config (Step.on_finalize 20) reached).0 ≡ ok tt)
run-IsConsistent_example =
    run-IsConsistent config config-sorts stakers history 20 blank config-running blank-IsBlank

on_finalize-Finalized_example :
    Finalized config 20 reached (on_finalize config 20 reached).0 (on_finalize config 20 reached).1
on_finalize-Finalized_example =
    on_finalize-Finalized config config-sorts 20 reached config-running run-IsConsistent_example.0

lookup-execute_delayed_validator_exits_example :
    Map.lookup 7 (execute_delayed_validator_exits config 3 reached).candidates
    ≡ after_exits 3 (Map.lookup 7 reached.candidates)
lookup-execute_delayed_validator_exits_example =
    lookup-execute_delayed_validator_exits config 3 7 reached run-IsConsistent_example.0

abbrev pool : List Bond
pool =
    record { owner = 5; amount = 25 }
    ∷ record { owner = 7; amount = 20 }
    ∷ record { owner = 8; amount = 30 }
    ∷ []

select-Best_example :
    (select config pool ≡ map owner_of (chosen config pool))
    × Best config.max_validators pool (chosen config pool) (left_out config pool)
select-Best_example = select-Best config config-sorts pool

-- A nominator of two candidates.
abbrev both : Nominator
both = record {
  nominations = record { owner = 7; amount = 6 } ∷ record { owner = 8; amount = 4 } ∷ [];
  total = 10;
}

both-IsSorted : OrderedSet.IsSorted owner_of both.nominations
both-IsSorted = ground arith

swap_nomination-Swaps_example : Swaps 7 8 both (Nominator.swap_nomination 7 8 both)
swap_nomination-Swaps_example = swap_nomination-Swaps 7 8 both both-IsSorted refl

-- A candidate through the methods of `Validator`.
abbrev changes : List Change
changes =
    added 9 6
    ∷ bonds_more 4
    ∷ increased 9 2
    ∷ updated 9 20
    ∷ added 8 5
    ∷ decreased 8 1
    ∷ removed 9
    ∷ []

changes-AllAllowed : AllAllowed changes (Validator.new 7 0 20)
unfolding Validator.new apply Validator.bond_more Validator.bond_less Validator.rm_nominator
    Validator.add_nominator Validator.update_nominator Validator.inc_nominator
    Validator.dec_nominator Validator.lists Validator.with_amount Validator.change_first
    OrderedSet.insert OrderedSet.binary_search OrderedSet.search_loop OrderedSet.search_end
    OrderedSet.probe OrderedSet.from OrderedSet.sort OrderedSet.sort_insert OrderedSet.dedup
    OrderedSet.dedup_after
changes-AllAllowed = (
  (omega arith, refl),
  (omega arith, (omega arith, (omega arith, ((omega arith, refl), (omega arith, (tt, tt)))))),
)

apply_all-new_example : IsBalanced (apply_all changes (Validator.new 7 0 20))
apply_all-new_example = apply_all-new changes 7 0 20 (omega arith) changes-AllAllowed

step-Atomic_example :
    Atomic reached
      (step config (Step.nominate_new (some 9) 5 40) reached).0
      (step config (Step.nominate_new (some 9) 5 40) reached).1
step-Atomic_example = step-Atomic config (Step.nominate_new (some 9) 5 40) reached tt

step-total_example :
    (step config (bond_step (of_nominator_more (some 9) 7 2)) reached).1.total ≡ reached.total
step-total_example = step-total config (of_nominator_more (some 9) 7 2) reached
