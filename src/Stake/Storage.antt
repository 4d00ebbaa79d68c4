-- ===== src/Stake/Storage.antt =====
-- `decl_storage!`, `Config` and how a dispatchable runs: a state with the pallet's storage items,
-- the events deposited, and the ledger of the currency. An error is a value, and what was written
-- before it stays written. A panic is the third way out.
pub mod Ends
use moonbeam.Base.{
  ℕ, Bool, true, false, Option, none, some, List, [], ◌∷◌, ◌++◌, ◌==◌, if◌then◌else◌, ◌/◌, ◌%◌,
  ◌&&◌,
}
use moonbeam.Base.Map.{Map}
use moonbeam.Stake.Types.{
  Bond, ValidatorSnapshot, Validator, Nominator, InflationInfo, Event, Error,
}

-- The constants of `trait Config`, and the functions of other crates that the pallet calls, over
-- the state `L` of the currency.
pub record Config (L : Type 0) : Type 0 where
  pub blocks_per_round : ℕ
  pub bond_duration : ℕ
  pub max_validators : ℕ
  pub max_nominators_per_validator : ℕ
  pub max_validators_per_nominator : ℕ
  pub max_fee : ℕ
  pub min_validator_stk : ℕ
  pub min_nomination : ℕ
  pub min_nominator_stk : ℕ
  -- `ReservableCurrency::reserve`, where `none` is an error and `unreserve`
  pub reserve : ℕ → ℕ → L → Option L
  pub unreserve : ℕ → ℕ → L → L
  -- `Currency`; `deposit_into_existing` also gives `peek` of the imbalance
  pub deposit_into_existing : ℕ → ℕ → L → Option (L × ℕ)
  pub minimum_balance : ℕ
  pub total_issuance : L → ℕ
  pub free_balance : ℕ → L → ℕ
  -- `Perbill`, by its parts: `from_parts`, `from_rational_approximation` and `*` with a balance
  pub from_parts : ℕ → ℕ
  pub from_rational_approximation : ℕ → ℕ → ℕ
  pub perbill_mul : ℕ → ℕ → ℕ
  -- the order in which `drain_prefix` yields the entries
  pub drain_order : List (ℕ × ℕ) → List (ℕ × ℕ)
  -- `sort_unstable_by` on the amounts
  pub sort_unstable_by_amount : List Bond → List Bond

pub record State (L : Type 0) : Type 0 where
  pub round : ℕ
  pub nominators : Map Nominator
  pub candidates : Map Validator
  pub validators : List ℕ
  pub total : ℕ
  pub candidate_pool : List Bond
  pub exit_queue : List Bond
  pub at_stake : ℕ → ℕ → ValidatorSnapshot
  pub staked : ℕ → ℕ
  pub inflation_config : InflationInfo
  pub points : ℕ → ℕ
  pub awarded_pts : ℕ → Map ℕ
  pub ledger : L
  pub events : List Event

pub data DispatchError : Type 0 where
  bad_origin reserve_failed : DispatchError
  module_error : Error → DispatchError

pub data Result (A : Type 0) : Type 0 where
  ok : A → Result A
  err : DispatchError → Result A
  panicked : Result A

abbrev pub M : Type 0 → Type 0 → Type 0
M L A = State L → Result A × State L

-- `DispatchResult`
abbrev pub Call : Type 0 → Type 0
Call L = M L (Unit {0})

module _ {L A : Type 0} where
  unfoldable pub pure : A → M L A
  pure a s = (ok a, s)

  unfoldable pub fail : Error → M L A
  fail e s = (err (module_error e), s)

  unfoldable pub panic : M L A
  panic s = (panicked, s)

  unfoldable pub gets : (State L → A) → M L A
  gets f s = (ok (f s), s)

  -- `.ok_or(e)?`
  unfoldable pub ok_or : Option A → Error → M L A
  unfolding pure fail
  ok_or none e = fail e
  ok_or (some a) e = pure a

-- An error or a panic ends the block, and keeps the state that it was met in.
abbrev pub continue : {L A B : Type 0} → (A → M L B) → Result A × State L → Result B × State L
continue f (ok a, s) = f a s
continue f (err e, s) = (err e, s)
continue f (panicked, s) = (panicked, s)

infixl 5 ◌>>=◌ ◌>>◌
unfoldable pub ◌>>=◌ : {L A B : Type 0} → M L A → (A → M L B) → M L B
◌>>=◌ m f s = continue f (m s)

unfoldable pub ◌>>◌ : {L A B : Type 0} → M L A → M L B → M L B
unfolding ◌>>=◌
m >> k = m >>= λ _. k

module _ {L : Type 0} where
  unfoldable pub modify : (State L → State L) → Call L
  modify f s = (ok tt, f s)

  -- `ensure!`
  unfoldable pub ensure : Bool → Error → Call L
  unfolding pure fail
  ensure true e = pure tt
  ensure false e = fail e

  -- `ensure_signed(origin)?`, on what the origin is signed by, and `ensure_origin(origin)?`, on
  -- what the check of the origin says
  unfoldable pub ensure_signed : Option ℕ → M L ℕ
  ensure_signed none s = (err bad_origin, s)
  ensure_signed (some acc) s = (ok acc, s)

  unfoldable pub ensure_origin : Bool → Call L
  ensure_origin true s = (ok tt, s)
  ensure_origin false s = (err bad_origin, s)

  unfoldable pub deposit_event : Event → Call L
  deposit_event e s = (ok tt, record s { events = s.events ++ e ∷ [] })

  -- The state once the currency has answered.
  abbrev pub settle : State L → Option L → Result (Unit {0}) × State L
  settle s none = (err reserve_failed, s)
  settle s (some l) = (ok tt, record s { ledger = l })

  module _ (cfg : Config L) where
    -- `T::Currency::reserve(&acc, amount)?`
    unfoldable pub reserve : ℕ → ℕ → Call L
    reserve acc amount s = settle s (cfg.reserve acc amount s.ledger)

    unfoldable pub unreserve : ℕ → ℕ → Call L
    unreserve acc amount s = (ok tt, record s { ledger = cfg.unreserve acc amount s.ledger })

-- The machine division and remainder panic at 0.
abbrev pub checked_div : ℕ → ℕ → Option ℕ
checked_div a b = if b == 0 then none else some (a / b)

abbrev pub checked_rem : ℕ → ℕ → Option ℕ
checked_rem a b = if b == 0 then none else some (a % b)

unfoldable pub or_panic : {L A : Type 0} → Option A → M L A
unfolding pure panic
or_panic none = panic
or_panic (some a) = pure a
