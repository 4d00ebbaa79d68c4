-- ===== src/Stake/LimitsTests.antt =====
-- The numbers of nominations and of nominators at concrete states.
use moonbeam.Base.{ℕ, ◌≡◌, ◌≤◌, ◌<◌, refl, none, some, Option, List, [], ◌∷◌, arith, length}
use moonbeam.Base.Map
use moonbeam.OrderedSet
use moonbeam.Stake.Types.{Bond, owner_of, Validator as Candidate, Nominator as Nominations}
use moonbeam.Stake.Validator
use moonbeam.Stake.Nominator
use moonbeam.Stake.Storage.{State, ok}
use moonbeam.Stake.Example.{config, blank}
use moonbeam.Stake.Rounds.{genesis_build}
use moonbeam.Stake.Runs.{Step, run}
use moonbeam.Stake.NominatorCalls.{switch_nomination}
use moonbeam.Stake.Limits.{nominations_in}
use moonbeam.Stake.Limits.Histories.{length-run}
use moonbeam.Stake.Limits.Switch.{nominator_count, switch_nomination-count}

abbrev stakers : List (ℕ × Option ℕ × ℕ)
stakers = (7, none, 20) ∷ (8, none, 30) ∷ (9, some 7, 6) ∷ []

abbrev history : List (Step ℕ)
history =
    Step.nominate_new (some 9) 8 4
    ∷ Step.switch_nomination (some 9) 7 8
    ∷ Step.leave_candidates (some 8)
    ∷ Step.on_finalize 5
    ∷ []

config-positive : 0 < config.max_validators_per_nominator
unfolding config
config-positive = omega arith

blank-nominators : blank.nominators ≡ []
unfolding blank
blank-nominators = refl

length-run_example :
    length (
      nominations_in
        (Map.lookup 9 (run config history (genesis_build config stakers blank).1).nominators))
    ≤ config.max_validators_per_nominator
length-run_example = length-run config config-positive stakers history blank blank-nominators 9

-- A nominator of 7, and 8 with the four nominators that `MaxNominatorsPerValidator` allows.
abbrev crowd : List Bond
crowd =
    record { owner = 1; amount = 6 }
    ∷ record { owner = 2; amount = 6 }
    ∷ record { owner = 3; amount = 6 }
    ∷ record { owner = 4; amount = 6 }
    ∷ []

abbrev nominator : Nominations
nominator = record { nominations = record { owner = 7; amount = 10 } ∷ []; total = 10 }

abbrev old_candidate : Candidate
old_candidate = record (Validator.new 7 0 20) {
  nominators = record { owner = 9; amount = 10 } ∷ [];
  total = 30;
}

abbrev full_candidate : Candidate
full_candidate = record (Validator.new 8 0 30) { nominators = crowd; total = 54 }

abbrev crowded : State ℕ
crowded = record blank {
  nominators = (9, nominator) ∷ [];
  candidates = (7, old_candidate) ∷ (8, full_candidate) ∷ [];
}

crowded-lookups :
    (Map.lookup 9 crowded.nominators ≡ some nominator)
    × (Map.lookup 7 crowded.candidates ≡ some old_candidate)
    × (Map.lookup 8 crowded.candidates ≡ some full_candidate)
    × (Nominator.last_amount 7 none nominator.nominations ≡ some 10)
    × (Nominator.last_amount 8 none nominator.nominations ≡ none)
unfolding Map.lookup Nominator.last_amount
crowded-lookups = (refl, refl, refl, refl, refl)

crowd-IsSorted : OrderedSet.IsSorted owner_of crowd
crowd-IsSorted = (omega arith, (omega arith, (omega arith, tt)))

crowd-find : OrderedSet.find owner_of 9 crowd ≡ none
unfolding OrderedSet.find
crowd-find = refl

switch_nomination-count_example :
    let (r, t) = switch_nomination (some 9) 7 8 crowded in
    (r ≡ ok tt) × (nominator_count (Map.lookup 8 t.candidates) ≡ some 5)
switch_nomination-count_example =
    switch_nomination-count crowded 9 7 8 10 nominator old_candidate full_candidate (omega arith)
      crowded-lookups.0 crowded-lookups.1 crowded-lookups.2 crowded-lookups.3 crowded-lookups.4
      crowd-IsSorted crowd-find
