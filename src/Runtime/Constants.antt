-- ===== src/Runtime/Constants.antt =====
-- The constants of runtime/src/lib.rs, and how the staking pallet is configured by them.
use moonbeam.Base.{ℕ, ◌*◌, ◌/◌, Option, List}
use moonbeam.Stake.Storage
use moonbeam.Stake.Types.{Bond}

-- Milliseconds, and the weight of a second, of another crate
abbrev pub minimum_period : ℕ
minimum_period = 3000

abbrev pub weight_per_second : ℕ
weight_per_second = 1000000000000

abbrev pub maximum_block_weight : ℕ
maximum_block_weight = weight_per_second / 2

abbrev pub blocks_per_day : ℕ
blocks_per_day = 24 * 60 * 10

abbrev pub glmr : ℕ
glmr = 1000000000000000000

abbrev pub gas_per_second : ℕ
gas_per_second = 40000000

abbrev pub weight_per_gas : ℕ
weight_per_gas = weight_per_second / gas_per_second

-- `NORMAL_DISPATCH_RATIO`, in parts of a billion
abbrev pub normal_dispatch_ratio : ℕ
normal_dispatch_ratio = 750000000

-- `NORMAL_DISPATCH_RATIO * MAXIMUM_BLOCK_WEIGHT / WEIGHT_PER_GAS`, by the multiplication of `Perbill`
abbrev pub block_gas_limit : (ℕ → ℕ → ℕ) → ℕ
block_gas_limit perbill_mul =
    perbill_mul normal_dispatch_ratio maximum_block_weight / weight_per_gas

-- `impl pallet_democracy::Config for Runtime`
abbrev pub launch_period : ℕ
launch_period = blocks_per_day

abbrev pub voting_period : ℕ
voting_period = 5 * blocks_per_day

abbrev pub fast_track_voting_period : ℕ
fast_track_voting_period = blocks_per_day

abbrev pub enactment_period : ℕ
enactment_period = blocks_per_day

abbrev pub cooloff_period : ℕ
cooloff_period = 7 * blocks_per_day

-- What other crates answer to the staking pallet, over the state `L` of the currency.
pub record Crates (L : Type 0) : Type 0 where
  pub reserve : ℕ → ℕ → L → Option L
  pub unreserve : ℕ → ℕ → L → L
  pub deposit_into_existing : ℕ → ℕ → L → Option (L × ℕ)
  pub minimum_balance : ℕ
  pub total_issuance : L → ℕ
  pub free_balance : ℕ → L → ℕ
  pub from_parts : ℕ → ℕ
  pub from_rational_approximation : ℕ → ℕ → ℕ
  pub perbill_mul : ℕ → ℕ → ℕ
  pub drain_order : List (ℕ × ℕ) → List (ℕ × ℕ)
  pub sort_unstable_by_amount : List Bond → List Bond

-- `impl stake::Config for Runtime`
unfoldable pub stake_config : {L : Type 0} → Crates L → Storage.Config L
stake_config crates = record {
  blocks_per_round = 600;
  bond_duration = 2;
  max_validators = 8;
  max_nominators_per_validator = 10;
  max_validators_per_nominator = 8;
  max_fee = 500000000;
  min_validator_stk = 1000 * glmr;
  min_nomination = 5 * glmr;
  min_nominator_stk = 5 * glmr;
  reserve = crates.reserve;
  unreserve = crates.unreserve;
  deposit_into_existing = crates.deposit_into_existing;
  minimum_balance = crates.minimum_balance;
  total_issuance = crates.total_issuance;
  free_balance = crates.free_balance;
  from_parts = crates.from_parts;
  from_rational_approximation = crates.from_rational_approximation;
  perbill_mul = crates.perbill_mul;
  drain_order = crates.drain_order;
  sort_unstable_by_amount = crates.sort_unstable_by_amount;
}
