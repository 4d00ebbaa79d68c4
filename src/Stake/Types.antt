-- ===== src/Stake/Types.antt =====
-- The data of pallets/stake/src/lib.rs and inflation.rs. Account ids are compared and copied only,
-- so they are numbers; so are `Perbill`s, given by their parts, and balances, whose arithmetic is
-- that of `u128`.
use moonbeam.Base.{ℕ, List}

-- `Bond<AccountId, Balance>`, and `Bond<AccountId, RoundIndex>` in the exit queue
pub record Bond : Type 0 where
  pub owner : ℕ
  pub amount : ℕ

-- `impl Ord for Bond` compares owners, and `PartialEq` too.
abbrev pub owner_of : Bond → ℕ
owner_of b = b.owner

-- `Bond::from_owner`
abbrev pub from_owner : ℕ → Bond
from_owner owner = record { owner = owner; amount = 0 }

pub data ValidatorStatus : Type 0 where
  active idle : ValidatorStatus
  leaving : ℕ → ValidatorStatus

pub record ValidatorSnapshot : Type 0 where
  pub fee : ℕ
  pub bond : ℕ
  pub nominators : List Bond
  pub total : ℕ

pub record Validator : Type 0 where
  pub id : ℕ
  pub fee : ℕ
  pub bond : ℕ
  pub nominators : List Bond
  pub total : ℕ
  pub state : ValidatorStatus

pub record Nominator : Type 0 where
  pub nominations : List Bond
  pub total : ℕ

pub record Range : Type 0 where
  pub min : ℕ
  pub ideal : ℕ
  pub max : ℕ

pub record InflationInfo : Type 0 where
  pub expect : Range
  pub round : Range

pub data Event : Type 0 where
  new_round : ℕ → ℕ → ℕ → ℕ → Event
  joined_validator_candidates : ℕ → ℕ → ℕ → Event
  validator_chosen : ℕ → ℕ → ℕ → Event
  validator_bonded_more validator_bonded_less : ℕ → ℕ → ℕ → Event
  validator_went_offline validator_back_online : ℕ → ℕ → Event
  validator_scheduled_exit : ℕ → ℕ → ℕ → Event
  validator_left : ℕ → ℕ → ℕ → Event
  nomination_increased nomination_decreased : ℕ → ℕ → ℕ → ℕ → Event
  nomination_swapped : ℕ → ℕ → ℕ → ℕ → Event
  nominator_joined nominator_left : ℕ → ℕ → Event
  validator_nominated : ℕ → ℕ → ℕ → ℕ → Event
  nominator_left_validator : ℕ → ℕ → ℕ → ℕ → Event
  rewarded : ℕ → ℕ → Event
  round_inflation_set : ℕ → ℕ → ℕ → Event
  stake_expectations_set : ℕ → ℕ → ℕ → Event

pub data Error : Type 0 where
  nominator_dne candidate_dne nominator_exists candidate_exists fee_over_max : Error
  val_bond_below_min nom_bond_below_min nomination_below_min : Error
  already_offline already_active already_leaving too_many_nominators : Error
  cannot_activate_if_leaving exceed_max_validators_per_nom already_nominated_validator : Error
  nomination_dne underflow cannot_switch_to_same_nomination invalid_schedule : Error
