-- ===== src/Runtime/Tests.antt =====
-- The theorems on the runtime's own code at concrete inputs.
use moonbeam.Base.{
  ℕ, ◌^◌, ◌≤◌, ◌<◌, ◌≡◌, refl, some, List, [], ◌∷◌, ◌++◌, ltb, if◌then◌else◌, arith,
}
use moonbeam.Runtime.Gas.{gas_to_weight, weight_to_gas, weight_to_gas-gas_to_weight}
use moonbeam.Runtime.Account.{from_public, from_public-prefix}

weight_to_gas-gas_to_weight_example :
    (weight_to_gas (gas_to_weight 21000)
      ≡ (if ltb 21000 737869762948383 then 21000 else 737869762948382))
    × (gas_to_weight 21000 < 2 ^ 64)
    × (gas_to_weight 21000 ≤ gas_to_weight 15000000)
weight_to_gas-gas_to_weight_example = weight_to_gas-gas_to_weight 21000 15000000 (omega arith)

abbrev tail : List ℕ
tail = 1 ∷ 2 ∷ 3 ∷ 4 ∷ 5 ∷ 6 ∷ 7 ∷ 8 ∷ 9 ∷ 10 ∷ 11 ∷ 12 ∷ 13 ∷ 14 ∷ 15 ∷ 16 ∷ 17 ∷ 18 ∷ 19 ∷ 20 ∷ []

-- The first 13 bytes of two keys that differ in the parity byte.
abbrev even : List ℕ
even = 2 ∷ 9 ∷ 9 ∷ 9 ∷ 9 ∷ 9 ∷ 9 ∷ 9 ∷ 9 ∷ 9 ∷ 9 ∷ 9 ∷ 9 ∷ []

abbrev odd : List ℕ
odd = 3 ∷ 9 ∷ 9 ∷ 9 ∷ 9 ∷ 9 ∷ 9 ∷ 9 ∷ 9 ∷ 9 ∷ 9 ∷ 9 ∷ 9 ∷ []

from_public-prefix_example :
    (from_public (even ++ tail) ≡ from_public (odd ++ tail))
    × (from_public (even ++ tail) ≡ some (record { bytes = tail }))
from_public-prefix_example = from_public-prefix even odd tail refl refl refl
