-- ===== src/Stake/Limits.antt =====
-- How many nominations a nominator has: `MaxValidatorsPerNominator` of pallets/stake/src/lib.rs.
pub mod Lengths
pub mod Candidates
pub mod Nominators
pub mod Hooks
pub mod Histories
pub mod Switch
use moonbeam.Base.{ℕ, ◌≤◌, ◌≡◌, Option, none, some, List, [], length}
use moonbeam.Base.Map
use moonbeam.Base.Map.{Map}
use moonbeam.Stake.Types.{Bond, Nominator as Nominations}
use moonbeam.Stake.Storage.{State, Result}
use moonbeam.Stake.Storage.Ends.{Ends}

-- No nominator has more than `max` nominations.
abbrev pub IsLimited : ℕ → Map Nominations → Type 0
IsLimited max nominators =
    (a : ℕ) (n : Nominations) → Map.lookup a nominators ≡ some n → length n.nominations ≤ max

abbrev pub Limits : {L A : Type 0} → ℕ → Result A × State L → Type 0
Limits max = Ends (λ r t. IsLimited max t.nominators)

-- The nominations of an entry of `Nominators` that may be missing.
abbrev pub nominations_in : Option Nominations → List Bond
nominations_in none = []
nominations_in (some n) = n.nominations
