-- ===== src/Stake/Inflation/Ranges.antt =====
-- The order of the ranges of pallets/stake/src/inflation.rs, and the issuance.
use mathlib.Core.Path.{subst, sym}
use native.Mathlib.Nat.{div-mul-le_self, le-div_iff_mul-le}
use moonbeam.Base.{
  ◌⊎◌, ℕ, zero, ◌/◌, ◌≤◌, ◌<◌, ◌≡◌, refl, ap, ◌∙◌, Bool, true, false, Option, none, some, ◌==◌,
  arith,
}
use moonbeam.Stake.Types.{Range, InflationInfo}
use moonbeam.Stake.Storage.{Config, State, Result, ok, err, panicked, checked_div}
use moonbeam.Stake.Storage.Ends.{
  Ends, Ends-origin, Ends-ensure, Ends-gets, Ends-or_panic, Ends-log, Ends-modify,
}
use moonbeam.Stake.Inflation.{
  blocks_per_year, is_valid, rounds_per_year, divide_range, annual_to_round, round_issuance_range,
  set_annual_rate, compute_issuance,
}
use moonbeam.Stake.Admin.{set_staking_expectations, set_inflation}

abbrev pub IsMonotone : (ℕ → ℕ) → Type 0
IsMonotone f = (a b : ℕ) → a ≤ b → f a ≤ f b

-- What `Perbill` documents: more parts are more, and more of any balance.
pub record PerbillLaws {L : Type 0} (cfg : Config L) : Type 0 where
  pub parts : IsMonotone cfg.from_parts
  pub multiplies : (x : ℕ) → IsMonotone (λ p. cfg.perbill_mul p x)

-- A range in order.
pub record IsOrdered (r : Range) : Type 0 where
  pub low : r.min ≤ r.ideal
  pub high : r.ideal ≤ r.max

pub div-IsMonotone : (k : ℕ) → zero < k → IsMonotone (λ n. n / k)
div-IsMonotone k p a b le =
    (le-div_iff_mul-le {k = k} {x = a / k} {y = b} p).1 (omega (arith, div-mul-le_self a k, le))

is_valid-IsOrdered : (r : Range) → is_valid r ≡ true → IsOrdered r
is_valid-IsOrdered r h = record { low = ground arith; high = ground arith }

checked_div-some : (a k : ℕ) → zero < k → checked_div a k ≡ some (a / k)
checked_div-some a k p = ground (arith, p)

module _ {L : Type 0} (cfg : Config L) (laws : PerbillLaws cfg) where
  -- With the round's range in order the issuance is that of its low end if less is staked than the low
  -- end of the expectations, that of its high end if more is staked than their high end, and that of
  -- its ideal between the two. So more staked is never less issuance, where the expectations are in
  -- order, and it lies between the two ends.
  pub compute_issuance-Chosen :
      (config : InflationInfo) (circulating staked more : ℕ)
      → IsOrdered config.expect
      → IsOrdered config.round
      → staked ≤ more
      → let issuance = compute_issuance cfg config circulating in
        let of : ℕ → ℕ = λ parts. cfg.perbill_mul parts circulating in
        (((staked < config.expect.min) × (issuance staked ≡ of config.round.min))
          ⊎ ((config.expect.max < staked) × (issuance staked ≡ of config.round.max))
          ⊎ ((config.expect.min ≤ staked)
              × (staked ≤ config.expect.max)
              × (issuance staked ≡ of config.round.ideal)))
        × (of config.round.min ≤ issuance staked)
        × (issuance staked ≤ issuance more)
        × (issuance more ≤ of config.round.max)
  unfolding compute_issuance round_issuance_range
  compute_issuance-Chosen config circulating staked more e h le =
      let low = laws.multiplies circulating config.round.min config.round.ideal h.low in
      let high = laws.multiplies circulating config.round.ideal config.round.max h.high in
      let order = e.low in
      let order' = e.high in
      (
        ground arith,
        ground (arith, low, high),
        ground (arith, low, high, order, order'),
        ground (arith, low, high),
      )

  annual_to_round-IsOrdered :
      (annual : Range) (periods : ℕ)
      → zero < periods
      → IsOrdered annual
      → (r : Range) × (divide_range cfg periods annual ≡ some r) × IsOrdered r
  annual_to_round-IsOrdered annual periods p h =
      let low = laws.parts _ _ (div-IsMonotone periods p annual.min annual.ideal h.low) in
      let high = laws.parts _ _ (div-IsMonotone periods p annual.ideal annual.max h.high) in
      let positive : (periods == 0) ≡ false = ground arith in
      (
        _,
        ap
            (λ o. elim o as (λ _. Option Range) [
              | none ↦ none
              | some min ↦ some (record {
                min = cfg.from_parts min;
                ideal = cfg.from_parts (annual.ideal / periods);
                max = cfg.from_parts (annual.max / periods);
              })
            ])
            (checked_div-some annual.min periods p),
        record { low = low; high = high },
      )

-- Both ranges of the configuration are in order.
abbrev pub IsInOrder : InflationInfo → Type 0
IsInOrder config = IsOrdered config.expect × IsOrdered config.round

-- A configuration was computed, and its ranges are in order.
AreInOrder : Option InflationInfo → Type 0
AreInOrder none = ⊥
AreInOrder (some config) = IsInOrder config

-- How a call on `s` ends that sets the configuration: with ranges in order, or with an error and the
-- state that it began with.
abbrev pub Orders : {L A : Type 0} → State L → Result A → State L → Type 0
Orders s (ok a) t = IsInOrder t.inflation_config
Orders s (err e) t = t ≡ s
Orders s panicked t = ⊥

module _ {L : Type 0} (cfg : Config L) (laws : PerbillLaws cfg) (s : State L)
    (h : IsInOrder s.inflation_config) where
  -- With the configured ranges in order, set_staking_expectations sets a configuration whose ranges are
  -- in order, or returns an error and leaves the state as it was.
  pub set_staking_expectations-Orders :
      (origin : Bool) (r : Range) → Ends (Orders s) (set_staking_expectations origin r s)
  unfolding set_staking_expectations
  set_staking_expectations-Orders origin r = Ends-origin _ _ _ refl λ allowed.
      Ends-ensure _ _ _ _ refl λ valid.
        Ends-gets _ _ _ (Ends-log _ _ _ (Ends-modify _ _ (is_valid-IsOrdered r valid, h.1)))

  set_annual_rate-Orders :
      (r : Range)
      → zero < cfg.blocks_per_round
      → cfg.blocks_per_round ≤ blocks_per_year
      → is_valid r ≡ true
      → (config : InflationInfo) × (set_annual_rate cfg r s.inflation_config ≡ some config)
        × IsInOrder config
  unfolding set_annual_rate annual_to_round rounds_per_year
  set_annual_rate-Orders r positive few valid =
      let periods = blocks_per_year / cfg.blocks_per_round in
      let rounds = checked_div-some blocks_per_year cfg.blocks_per_round positive in
      let enough : zero < periods =
        (le-div_iff_mul-le {k = cfg.blocks_per_round} {x = 1} {y = blocks_per_year} positive).1
          (omega arith) in
      let (round, divides, ordered) =
        annual_to_round-IsOrdered cfg laws r periods enough (is_valid-IsOrdered r valid) in
      (
        _,
        ap
              (λ o.
                elim (elim o as (λ _. Option Range) [ none ↦ none | some p ↦ divide_range cfg p r ])
                  as (λ _. Option InflationInfo) [
                    | none ↦ none
                    | some round ↦ some (record s.inflation_config { round = round })
                  ])
              rounds
            ∙ ap
                (λ o. elim o as (λ _. Option InflationInfo) [
                  | none ↦ none
                  | some round ↦ some (record s.inflation_config { round = round })
                ])
                divides,
        (h.0, ordered),
      )

  -- If more parts mean more, with blocks per round between one and the blocks of a year, and with the configured
  -- ranges in order,
  -- set_inflation does not panic: it sets a configuration whose ranges are in order, or returns an error
  -- and leaves the state as it was.
  pub set_inflation-Orders :
      (origin : Bool) (r : Range)
      → zero < cfg.blocks_per_round
      → cfg.blocks_per_round ≤ blocks_per_year
      → Ends (Orders s) (set_inflation cfg origin r s)
  unfolding set_inflation AreInOrder
  set_inflation-Orders origin r positive few = Ends-origin _ _ _ refl λ allowed.
      Ends-ensure _ _ _ _ refl λ valid.
        let (config, sets, ordered) = set_annual_rate-Orders r positive few valid in
        Ends-gets _ _ _ (
          Ends-or_panic _ _ _ (λ none_set. subst AreInOrder (sym sets ∙ none_set) ordered)
            λ updated e. Ends-log _ _ _ (Ends-modify _ _ (subst AreInOrder (sym sets ∙ e) ordered)))
