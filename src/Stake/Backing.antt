-- ===== src/Stake/Backing.antt =====
-- The reserved balances of the currency and the stakes of pallets/stake/src/lib.rs: an account has
-- reserved its bond as a candidate and the sum of its nominations.
pub mod Sums
pub mod Changes
pub mod Methods
pub mod Candidates
pub mod Nominators
pub mod Leaving
pub mod Switching
pub mod Rounds
pub mod Steps
pub mod Histories
use moonbeam.Base.{ℕ, ◌+◌, ◌-◌, ◌<◌, ◌^◌, ◌≡◌, Option, none, some, List, arith, ◌==◌, if◌then◌else◌}
use moonbeam.Base.Map
use moonbeam.Base.Map.{Map}
use moonbeam.Stake.Types.{Bond, Validator}
use moonbeam.Stake.Validator.Bonds.{sum}
use moonbeam.Stake.Storage.{Config, State, Result}
use moonbeam.Stake.Sides.{IsMatched, nominating}
use moonbeam.Stake.Sides.Exits.{AllExact}

-- What the currency documents of reserved balances: reserving and giving back change the reserved
-- balance of the account and of no other, giving back stops at zero, deposits leave it alone, and it is
-- a `u128`.
pub record Reserves {L : Type 0} (cfg : Config L) : Type 0 where
  pub reserved : ℕ → L → ℕ
  pub fits : (a : ℕ) (l : L) → reserved a l < 2 ^ 128
  pub reserves :
      (acc amount : ℕ) (l l' : L)
      → cfg.reserve acc amount l ≡ some l'
      → (a : ℕ) → reserved a l' ≡ (if acc == a then reserved a l + amount else reserved a l)
  pub unreserves :
      (acc amount : ℕ) (l : L) (a : ℕ)
      → reserved a (cfg.unreserve acc amount l)
        ≡ (if acc == a then reserved a l - amount else reserved a l)
  pub deposits :
      (acc amount : ℕ) (l : L) (p : L × ℕ)
      → cfg.deposit_into_existing acc amount l ≡ some p
      → (a : ℕ) → reserved a p.0 ≡ reserved a l

-- The bond of an entry of `Candidates` that may be missing.
abbrev pub bond_in : Option Validator → ℕ
bond_in none = 0
bond_in (some v) = v.bond

abbrev pub bonded : Map Validator → ℕ → ℕ
bonded m a = bond_in (Map.lookup a m)

-- Candidates stand under their own ids, and the reserved balances `r` are the bonds and the sums of
-- the nominations `g`.
pub record Backed (m : Map Validator) (g : ℕ → List Bond) (r : ℕ → ℕ) : Type 0 where
  pub ids : (c : ℕ) (v : Validator) → Map.lookup c m ≡ some v → v.id ≡ c
  pub backed : (a : ℕ) → r a ≡ bonded m a + sum (g a)

-- Both sides of every nomination agree, the totals of the nominators are exact, and the reserved
-- balances are what is staked.
pub record IsBacked {L : Type 0} (reserved : ℕ → L → ℕ) (s : State L) : Type 0 where
  pub matched : IsMatched s
  pub exact : AllExact s.nominators
  pub stakes : Backed s.candidates (nominating s.nominators) (λ a. reserved a s.ledger)

-- The part of it that is not about the two sides.
abbrev pub IsStaked : {L : Type 0} → (ℕ → L → ℕ) → State L → Type 0
IsStaked reserved t =
    AllExact t.nominators × Backed t.candidates (nominating t.nominators) (λ a. reserved a t.ledger)

abbrev pub Stakes : {L A : Type 0} → (ℕ → L → ℕ) → Result A → State L → Type 0
Stakes reserved r t = IsStaked reserved t
