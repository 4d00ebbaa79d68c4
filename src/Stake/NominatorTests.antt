-- ===== src/Stake/NominatorTests.antt =====
-- The methods of `Nominator` at concrete nominations.
use mathlib.Core.Path.{subst}
use moonbeam.Base.{ℕ, ◌≡◌, refl, Option, none, some, List, [], ◌∷◌, arith}
use moonbeam.Base.Map
use moonbeam.OrderedSet
use moonbeam.Stake.Types.{Validator as Candidate, Nominator as Nominations}
use moonbeam.Stake.Validator
use moonbeam.Stake.Nominator
use moonbeam.Stake.Nominator.Totals.{IsBalanced}
use moonbeam.Stake.Nominator.Histories.{
  Change, nominated, revoked, increased, decreased, switched, change, change_all, AllAllowed,
  change_all-new,
}
use moonbeam.Stake.Storage.{State}
use moonbeam.Stake.Example.{config, blank}
use moonbeam.Stake.NominatorCalls.{leave_nominators}
use moonbeam.Stake.Stuck.{Unlisted, Fails, leave_nominators-Fails}

abbrev changes : List Change
changes =
    nominated (record { owner = 8; amount = 4 })
    ∷ increased 7 5
    ∷ switched 7 6
    ∷ decreased 8 1
    ∷ revoked 6
    ∷ []

changes-AllAllowed : AllAllowed changes (Nominator.new 7 10)
unfolding change Nominator.new Nominator.add_nomination Nominator.inc_nomination
    Nominator.first_amount Validator.lists Validator.change_first OrderedSet.insert
    OrderedSet.binary_search OrderedSet.search_loop OrderedSet.search_end OrderedSet.probe
    OrderedSet.from OrderedSet.sort OrderedSet.sort_insert OrderedSet.dedup OrderedSet.dedup_after
changes-AllAllowed = (omega arith, (omega arith, (refl, (omega arith, (tt, tt)))))

change_all-new_example : IsBalanced (change_all changes (Nominator.new 7 10))
change_all-new_example = change_all-new changes 7 10 (omega arith) changes-AllAllowed

-- What a switch from 7 to 8 leaves behind of a nominator of both: 7 does not list it any more.
abbrev stuck : Nominations
stuck = record {
  nominations = record { owner = 7; amount = 6 } ∷ record { owner = 8; amount = 10 } ∷ [];
  total = 10;
}

abbrev candidates : Map.Map Candidate
candidates =
    (7, Validator.new 7 0 20)
    ∷ (
      8,
      record (Validator.new 8 0 30) {
        nominators = record { owner = 9; amount = 10 } ∷ [];
        total = 40;
      },
    )
    ∷ []

abbrev switched_state : State ℕ
switched_state = record blank { nominators = (9, stuck) ∷ []; candidates = candidates }

stuck-found : Map.lookup 9 switched_state.nominators ≡ some stuck
unfolding Map.lookup
stuck-found = refl

stuck-nominates : Nominator.first_amount 7 stuck.nominations ≡ some 6
unfolding Nominator.first_amount
stuck-nominates = refl

ListsNone : Option Candidate → Type 0
ListsNone none = Unit
ListsNone (some c) = Nominator.last_amount 9 none c.nominators ≡ none

stuck-Unlisted : Unlisted 9 7 switched_state
unfolding ListsNone Map.lookup Validator.new Nominator.last_amount OrderedSet.from OrderedSet.sort
    OrderedSet.dedup
stuck-Unlisted c found = subst ListsNone found refl

leave_nominators-Fails_example : Fails (leave_nominators config (some 9) switched_state).0
leave_nominators-Fails_example =
    leave_nominators-Fails config 9 7 stuck 6 switched_state stuck-found stuck-nominates
      stuck-Unlisted
