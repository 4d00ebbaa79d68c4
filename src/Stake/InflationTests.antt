-- ===== src/Stake/InflationTests.antt =====
-- The inflation of the concrete configuration of Stake/Example.antt.
use native.Mathlib.Nat.{mul-le-mul_right}
use moonbeam.Base.{ℕ, ◌*◌, ◌≤◌, ◌<◌, ◌≡◌, ◌⊎◌, true, arith}
use moonbeam.Stake.Types.{Range, InflationInfo}
use moonbeam.Stake.Storage.Ends.{Ends}
use moonbeam.Stake.Inflation.{blocks_per_year, compute_issuance}
use moonbeam.Stake.Inflation.Ranges.{
  IsMonotone, IsInOrder, PerbillLaws, IsOrdered, Orders, compute_issuance-Chosen,
  set_inflation-Orders, div-IsMonotone,
}
use moonbeam.Stake.Admin.{set_inflation}
use moonbeam.Stake.Example.{config, blank}

times-IsMonotone : (x : ℕ) → IsMonotone (λ p. p * x)
times-IsMonotone x a b le = mul-le-mul_right x le

config-PerbillLaws : PerbillLaws config
unfolding config
config-PerbillLaws = record {
  parts = λ a b le. le;
  multiplies = λ x a b le. div-IsMonotone 1000000000 (omega arith) _ _ (times-IsMonotone x a b le);
}

abbrev yearly : Range
yearly = record { min = 30000000; ideal = 40000000; max = 50000000 }

abbrev inflation : InflationInfo
inflation = record { expect = record { min = 100; ideal = 200; max = 300 }; round = yearly }

compute_issuance-Chosen_example :
    let issuance = compute_issuance config inflation 1000 in
    let of : ℕ → ℕ = λ parts. config.perbill_mul parts 1000 in
    (((250 < 100) × (issuance 250 ≡ of 30000000))
      ⊎ ((300 < 250) × (issuance 250 ≡ of 50000000))
      ⊎ ((100 ≤ 250) × (250 ≤ 300) × (issuance 250 ≡ of 40000000)))
    × (of 30000000 ≤ issuance 250)
    × (issuance 250 ≤ issuance 400)
    × (issuance 400 ≤ of 50000000)
compute_issuance-Chosen_example =
    compute_issuance-Chosen config config-PerbillLaws inflation 1000 250 400
      (record { low = omega arith; high = omega arith })
      (record { low = omega arith; high = omega arith }) (omega arith)

abbrev zero_range : IsOrdered (record { min = 0; ideal = 0; max = 0 })
zero_range = record { low = omega arith; high = omega arith }

blank-IsInOrder : IsInOrder blank.inflation_config
unfolding blank
blank-IsInOrder = (zero_range, zero_range)

few : config.blocks_per_round ≤ blocks_per_year
unfolding config
few = omega arith

some_blocks : 0 < config.blocks_per_round
unfolding config
some_blocks = omega arith

set_inflation-Orders_example : Ends (Orders blank) (set_inflation config true yearly blank)
set_inflation-Orders_example =
    set_inflation-Orders config config-PerbillLaws blank blank-IsInOrder true yearly some_blocks few
