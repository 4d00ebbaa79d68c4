-- ===== src/Stake/Validator.antt =====
-- `impl Validator` and `From<Validator> for ValidatorSnapshot`. A method that writes through
-- `&mut self` returns the new value, beside its result where it has one.

pub mod Bonds
pub mod Changes
pub mod Arithmetic
pub mod Totals
use moonbeam.Base.{
  ℕ, ◌+◌, Bool, true, false, Option, none, some, List, [], ◌∷◌, ltb, ◌==◌, if◌then◌else◌, add_u128,
  sub_u128,
}
use moonbeam.OrderedSet
use moonbeam.Stake.Types.{
  Bond, owner_of, ValidatorStatus, active, idle, leaving, ValidatorSnapshot, Validator,
}

-- `Validator::new`
unfoldable pub new : ℕ → ℕ → ℕ → Validator
new id fee bond = record {
  id = id;
  fee = fee;
  bond = bond;
  nominators = [];
  total = bond;
  state = active;
}

abbrev pub status_is_active : ValidatorStatus → Bool
status_is_active active = true
status_is_active idle = false
status_is_active (leaving when) = false

abbrev pub status_is_leaving : ValidatorStatus → Bool
status_is_leaving active = false
status_is_leaving idle = false
status_is_leaving (leaving when) = true

abbrev pub is_active : Validator → Bool
is_active v = status_is_active v.state

abbrev pub is_leaving : Validator → Bool
is_leaving v = status_is_leaving v.state

unfoldable pub bond_more : ℕ → Validator → Validator
bond_more more v = record v { bond = add_u128 v.bond more; total = add_u128 v.total more }

-- The second part is the new bond; `none` is the underflow.
unfoldable pub bond_less : ℕ → Validator → Validator × Option ℕ
bond_less less v =
    if ltb less v.bond
    then (
      record v { bond = sub_u128 v.bond less; total = sub_u128 v.total less },
      some (sub_u128 v.bond less),
    )
    else (v, none)

-- What a `filter_map` keeps that drops the bonds of an owner.
unfoldable pub without : ℕ → List Bond → List Bond
without owner [] = []
without owner (x ∷ xs) = let rest = without owner xs in if x.owner == owner then rest else x ∷ rest

-- `total -= x.amount` at each bond that the closure drops
unfoldable pub subtract_owned : ℕ → ℕ → List Bond → ℕ
subtract_owned owner total [] = total
subtract_owned owner total (x ∷ xs) =
    subtract_owned owner (if x.owner == owner then sub_u128 total x.amount else total) xs

unfoldable pub rm_nominator : ℕ → Validator → Validator × ℕ
rm_nominator nominator v =
    let total = subtract_owned nominator v.total v.nominators in
    (
      record v {
        nominators = OrderedSet.from owner_of (without nominator v.nominators);
        total = total;
      },
      total,
    )

unfoldable pub add_nominator : ℕ → ℕ → Validator → Validator × ℕ
add_nominator owner amount v =
    let nominators =
      (OrderedSet.insert owner_of (record { owner = owner; amount = amount }) v.nominators).0 in
    let total = add_u128 v.total amount in
    (record v { nominators = nominators; total = total }, total)

-- The bonds that the closure of `update_nominator` maps to.
unfoldable pub with_amount : ℕ → ℕ → List Bond → List Bond
with_amount nominator amount [] = []
with_amount nominator amount (x ∷ xs) =
    (if x.owner == nominator then record { owner = x.owner; amount = amount } else x)
    ∷ with_amount nominator amount xs

-- The `difference` that it leaves behind: that of the last bond of the nominator.
unfoldable pub last_difference : ℕ → ℕ → ℕ → List Bond → ℕ
last_difference nominator amount difference [] = difference
last_difference nominator amount difference (x ∷ xs) =
    last_difference nominator amount
      (if x.owner == nominator then sub_u128 amount x.amount else difference) xs

unfoldable pub update_nominator : ℕ → ℕ → Validator → Validator × ℕ
update_nominator nominator amount v =
    let total = add_u128 v.total (last_difference nominator amount 0 v.nominators) in
    (
      record v {
        nominators = OrderedSet.from owner_of (with_amount nominator amount v.nominators);
        total = total;
      },
      total,
    )

-- A loop that changes the amount of the first bond of an owner and returns from the method.
unfoldable pub change_first : ℕ → (ℕ → ℕ) → List Bond → List Bond
change_first owner f [] = []
change_first owner f (x ∷ xs) =
    let rest = change_first owner f xs in
    if x.owner == owner then record x { amount = f x.amount } ∷ xs else x ∷ rest

-- Whether that loop finds a bond.
unfoldable pub lists : ℕ → List Bond → Bool
lists owner [] = false
lists owner (x ∷ xs) = if x.owner == owner then true else lists owner xs

unfoldable pub inc_nominator : ℕ → ℕ → Validator → Validator
inc_nominator nominator more v =
    if lists nominator v.nominators
    then record v {
      nominators = change_first nominator (λ a. add_u128 a more) v.nominators;
      total = add_u128 v.total more;
    }
    else v

unfoldable pub dec_nominator : ℕ → ℕ → Validator → Validator
dec_nominator nominator less v =
    if lists nominator v.nominators
    then record v {
      nominators = change_first nominator (λ a. sub_u128 a less) v.nominators;
      total = sub_u128 v.total less;
    }
    else v

abbrev pub go_offline : Validator → Validator
go_offline v = record v { state = idle }

abbrev pub go_online : Validator → Validator
go_online v = record v { state = active }

abbrev pub leave_candidates : ℕ → Validator → Validator
leave_candidates round v = record v { state = leaving round }

-- `From<Validator> for ValidatorSnapshot`
abbrev pub snapshot : Validator → ValidatorSnapshot
snapshot v = record { fee = v.fee; bond = v.bond; nominators = v.nominators; total = v.total }
