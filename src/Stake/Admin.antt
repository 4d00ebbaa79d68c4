-- ===== src/Stake/Admin.antt =====
-- The dispatchables of pallets/stake/src/lib.rs that set the monetary policy. The argument
-- `origin` is what `SetMonetaryPolicyOrigin` says of the caller.
use moonbeam.Base.{Bool}
use moonbeam.Stake.Types.{Range, Event, Error}
use moonbeam.Stake.Inflation.{is_valid, set_annual_rate, set_expectations}
use moonbeam.Stake.Storage.{
  Config, Call, gets, or_panic, modify, ensure, ensure_origin, deposit_event, ◌>>=◌, ◌>>◌,
}

module _ {L : Type 0} where
  unfoldable pub set_staking_expectations : Bool → Range → Call L
  set_staking_expectations origin expectations = do
    ensure_origin origin
    ensure (is_valid expectations) Error.invalid_schedule
    config ← gets (λ s. set_expectations expectations s.inflation_config)
    deposit_event
        (Event.stake_expectations_set config.expect.min config.expect.ideal config.expect.max)
    modify (λ s. record s { inflation_config = config })

module _ {L : Type 0} (cfg : Config L) where
  unfoldable pub set_inflation : Bool → Range → Call L
  set_inflation origin schedule = do
    ensure_origin origin
    ensure (is_valid schedule) Error.invalid_schedule
    updated ← gets (λ s. set_annual_rate cfg schedule s.inflation_config)
    config ← or_panic updated
    deposit_event (Event.round_inflation_set config.round.min config.round.ideal config.round.max)
    modify (λ s. record s { inflation_config = config })
