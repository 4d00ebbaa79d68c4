-- ===== src/Runtime/Gas.antt =====
-- `MoonbeamGasWeightMapping` of runtime/src/lib.rs: gas of the EVM as weight, and back.
use moonbeam.Base.{◌+◌, ℕ, ◌*◌, ◌/◌, ◌^◌, ◌-◌, ◌≤◌, ◌<◌, ◌≡◌, ltb, if◌then◌else◌, arith}
use moonbeam.Runtime.Constants.{weight_per_gas}

-- `u64::saturating_mul`
abbrev pub saturating_mul : ℕ → ℕ → ℕ
saturating_mul a b = if ltb (a * b) (2 ^ 64) then a * b else 2 ^ 64 - 1

unfoldable pub gas_to_weight : ℕ → ℕ
gas_to_weight gas = saturating_mul gas weight_per_gas

-- `u64::try_from` of a `u64` always succeeds, so `unwrap_or` keeps the quotient.
unfoldable pub weight_to_gas : ℕ → ℕ
weight_to_gas weight = weight / weight_per_gas

-- Gas that fits goes to weight and back unchanged. Gas of which the weight would overflow `u64`
-- comes back as the most gas that a weight can stand for. More gas never weighs less.
pub weight_to_gas-gas_to_weight :
    (gas more : ℕ)
    → gas ≤ more
    → (weight_to_gas (gas_to_weight gas)
        ≡ (if ltb gas 737869762948383 then gas else 737869762948382))
      × (gas_to_weight gas < 2 ^ 64)
      × (gas_to_weight gas ≤ gas_to_weight more)
unfolding weight_to_gas gas_to_weight
weight_to_gas-gas_to_weight gas more le = (ground arith, ground arith, ground arith)

-- The gas that a weight stands for weighs no more than that weight, and less than a unit of gas is
-- lost.
pub gas_to_weight-weight_to_gas :
    (weight : ℕ)
    → weight < 2 ^ 64
    → (gas_to_weight (weight_to_gas weight) ≤ weight)
      × (weight < gas_to_weight (weight_to_gas weight) + weight_per_gas)
unfolding weight_to_gas gas_to_weight
gas_to_weight-weight_to_gas weight h = (ground arith, ground arith)
