-- ===== src/Stake/Inflation.antt =====
-- pallets/stake/src/inflation.rs, with `compute_issuance` of lib.rs.
pub mod Ranges
use moonbeam.Base.{ℕ, Bool, ◌&&◌, Option, none, some, leb, ltb, if◌then◌else◌, ◌/◌}
use moonbeam.Stake.Types.{Range, InflationInfo}
use moonbeam.Stake.Storage.{Config, checked_div}

abbrev pub seconds_per_year : ℕ
seconds_per_year = 31557600

abbrev pub seconds_per_block : ℕ
seconds_per_block = 6

abbrev pub blocks_per_year : ℕ
blocks_per_year = seconds_per_year / seconds_per_block

-- `Range::is_valid`
abbrev pub is_valid : Range → Bool
is_valid r = leb r.ideal r.max && leb r.min r.ideal

-- `From<T> for Range<T>`
abbrev pub range_from : ℕ → Range
range_from other = record { min = other; ideal = other; max = other }

abbrev pub set_expectations : Range → InflationInfo → InflationInfo
set_expectations expect info = record info { expect = expect }

module _ {L : Type 0} (cfg : Config L) where
  unfoldable pub rounds_per_year : Option ℕ
  rounds_per_year = checked_div blocks_per_year cfg.blocks_per_round

  -- The three divisions have one divisor, so they panic together.
  abbrev pub divide_range : ℕ → Range → Option Range
  divide_range periods annual = elim (checked_div annual.min periods) [
    | none ↦ none
    | some min ↦ some (record {
      min = cfg.from_parts min;
      ideal = cfg.from_parts (annual.ideal / periods);
      max = cfg.from_parts (annual.max / periods);
    })
  ]

  unfoldable pub annual_to_round : Range → Option Range
  unfolding rounds_per_year
  annual_to_round annual = elim rounds_per_year [
    | none ↦ none
    | some periods ↦ divide_range periods annual
  ]

  unfoldable pub round_issuance_range : ℕ → Range → Range
  round_issuance_range circulating round = record {
    min = cfg.perbill_mul round.min circulating;
    ideal = cfg.perbill_mul round.ideal circulating;
    max = cfg.perbill_mul round.max circulating;
  }

  -- `InflationInfo::new`
  unfoldable pub new : Range → Range → Option InflationInfo
  unfolding annual_to_round
  new annual expect = elim (annual_to_round annual) [
    | none ↦ none
    | some round ↦ some (record { expect = expect; round = round })
  ]

  unfoldable pub set_annual_rate : Range → InflationInfo → Option InflationInfo
  unfolding annual_to_round
  set_annual_rate annual info = elim (annual_to_round annual) [
    | none ↦ none
    | some round ↦ some (record info { round = round })
  ]

  -- `compute_issuance`, on the inflation configuration and the total issuance
  unfoldable pub compute_issuance : InflationInfo → ℕ → ℕ → ℕ
  unfolding round_issuance_range
  compute_issuance config circulating staked =
      let issuance = round_issuance_range circulating config.round in
      if ltb staked config.expect.min
      then issuance.min
      else (if ltb config.expect.max staked then issuance.max else issuance.ideal)
