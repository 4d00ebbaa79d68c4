-- ===== src/Author/Filter.antt =====
-- pallets/author-filter/src/lib.rs: which of the staked accounts may author at a relay height.
-- A panic is `none`. `Percent` and the randomness source are other crates'.
pub mod Eligible
use moonbeam.Base.{
  ℕ, zero, suc, ◌+◌, ◌%◌, ◌^◌, Bool, true, false, Option, none, some, List, [], ◌∷◌, ◌++◌, ◌==◌,
  ◌||◌, if◌then◌else◌, length, get_elem?, remove_at,
}

-- `<[T]>::contains`
unfoldable pub contains : ℕ → List ℕ → Bool
contains account [] = false
contains account (x ∷ xs) = (x == account) || contains account xs

-- The constants `b"filter"`, then the index and the relay height `as u8`.
abbrev pub subject : ℕ → ℕ → List ℕ
subject i relay_height = 102 ∷ 105 ∷ 108 ∷ 116 ∷ 101 ∷ 114 ∷ i % 2 ^ 8 ∷ relay_height % 2 ^ 8 ∷ []

-- `Vec::remove`: the element with the others, or a panic.
unfoldable pub take_out : ℕ → List ℕ → Option (ℕ × List ℕ)
take_out i staked = elim (get_elem? staked i) [
  | none ↦ none
  | some a ↦ some (a, remove_at i staked)
]

-- The storage item, and what the pallet calls: `to_low_u64_be` of the randomness, `mul_ceil`.
pub record Config : Type 0 where
  pub random : List ℕ → ℕ
  pub mul_ceil : ℕ → ℕ → ℕ

pub record State : Type 0 where
  pub eligible_ratio : ℕ
  pub events : List ℕ

-- `Half`
abbrev pub half : ℕ
half = 50

module _ (cfg : Config) (relay_height : ℕ) where
  -- The index that the randomness gives, where `% 0` is a panic.
  unfoldable pub select_one : ℕ → List ℕ → Option (ℕ × List ℕ)
  unfolding take_out
  select_one i [] = none
  select_one i (x ∷ xs) =
      take_out (cfg.random (subject i relay_height) % 2 ^ 32 % length (x ∷ xs)) (x ∷ xs)

  -- `for i in 0..num_eligible`, with the rounds that are left, the index and both vectors
  unfoldable pub filter_loop : ℕ → ℕ → List ℕ → List ℕ → Option (List ℕ)
  unfolding select_one
  filter_loop zero i staked eligible = some eligible
  filter_loop (suc n) i staked eligible = elim (select_one i staked) [
    | none ↦ none
    | some (a, rest) ↦ filter_loop n (suc i) rest (eligible ++ a ∷ [])
  ]

-- The eligible accounts among the staked, by the ratio, at the relay height of the validation data.
unfoldable pub eligible : Config → ℕ → Option ℕ → List ℕ → Option (List ℕ)
unfolding filter_loop
eligible cfg ratio none staked = none
eligible cfg ratio (some relay_height) staked =
    filter_loop cfg relay_height (cfg.mul_ceil ratio (length staked)) 0 staked []

-- `impl CanAuthor for Pallet<T>`
unfoldable pub can_author : Config → ℕ → Option ℕ → List ℕ → ℕ → Option Bool
unfolding eligible contains
can_author cfg ratio validation_data staked account =
    elim (eligible cfg ratio validation_data staked) [
      | none ↦ none
      | some accounts ↦ some (contains account accounts)
    ]

-- `set_eligible`, where the flag says that the origin is root and `none` is the error
unfoldable pub set_eligible : Bool → ℕ → State → Option State
set_eligible false new s = none
set_eligible true new s = some (record { eligible_ratio = new; events = s.events ++ new ∷ [] })
