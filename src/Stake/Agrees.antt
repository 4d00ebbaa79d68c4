-- ===== src/Stake/Agrees.antt =====
-- How the storage items of the pallet fit together: the candidate pool holds the active candidates
-- with their totals, and the exit queue the leaving ones with the rounds at which they leave.
pub mod Pool
pub mod Candidates
pub mod Nominators
use moonbeam.Base.{ℕ, ◌≡◌, Option, none, some, List, if◌then◌else◌, Bool}
use moonbeam.Base.Map
use moonbeam.Base.Map.{Map}
use moonbeam.OrderedSet
use moonbeam.Stake.Types.{Bond, owner_of, ValidatorStatus, active, idle, leaving, Validator}
use moonbeam.Stake.Storage.{State}

-- The bond that stands in the pool for an entry of `Candidates`.
abbrev pub pool_bond : ℕ → ℕ → ValidatorStatus → Option Bond
pool_bond account total active = some (record { owner = account; amount = total })
pool_bond account total idle = none
pool_bond account total (leaving when) = none

abbrev pub pool_entry : ℕ → Option Validator → Option Bond
pool_entry account none = none
pool_entry account (some v) = pool_bond account v.total v.state

abbrev pub exit_bond : ℕ → ValidatorStatus → Option Bond
exit_bond account active = none
exit_bond account idle = none
exit_bond account (leaving when) = some (record { owner = account; amount = when })

abbrev pub exit_entry : ℕ → Option Validator → Option Bond
exit_entry account none = none
exit_entry account (some v) = exit_bond account v.state

pub record Agrees (candidates : Map Validator) (pool exits : List Bond) : Type 0 where
  pub pool_sorted : OrderedSet.IsSorted owner_of pool
  pub exits_sorted : OrderedSet.IsSorted owner_of exits
  pub pool_agrees :
      (a : ℕ) → OrderedSet.find owner_of a pool ≡ pool_entry a (Map.lookup a candidates)
  pub exits_agree :
      (a : ℕ) → OrderedSet.find owner_of a exits ≡ exit_entry a (Map.lookup a candidates)

-- The storage of the pallet agrees with itself.
abbrev pub IsConsistent : {L : Type 0} → State L → Type 0
IsConsistent s = Agrees s.candidates s.candidate_pool s.exit_queue
