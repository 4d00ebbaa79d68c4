-- ===== src/Stake/NominatorCalls.antt =====
-- The dispatchables of pallets/stake/src/lib.rs for nominators, with the functions that join a
-- nominator to a validator and part them.
use moonbeam.Base.{
  ℕ, List, [], ◌∷◌, not, Option, none, leb, ltb, ◌==◌, if◌then◌else◌, add_u128, sub_u128, length,
}
use moonbeam.Base.Map
use moonbeam.OrderedSet
use moonbeam.Stake.Types.{
  Bond, owner_of, Validator as Candidate, Nominator as Nominations, Event, Error,
}
use moonbeam.Stake.Validator
use moonbeam.Stake.Validator.{is_active}
use moonbeam.Stake.Nominator
use moonbeam.Stake.Storage.{
  Config, M, Call, pure, gets, ok_or, modify, ensure, ensure_signed, deposit_event, reserve,
  unreserve, ◌>>=◌, ◌>>◌,
}
use moonbeam.Stake.CandidateCalls.{
  is_nominator, is_candidate, update_active, update_if_active, put_candidate, get_candidate,
}

-- The new validator's update: `update_nominator` or `add_nominator`.
unfoldable pub receive_nomination : ℕ → ℕ → ℕ → Candidate → Candidate × ℕ
receive_nomination acc swapped_amt new_amt v =
    if ltb swapped_amt new_amt
    then Validator.update_nominator acc new_amt v
    else Validator.add_nominator acc swapped_amt v

module _ {L : Type 0} where
  abbrev pub put_nominator : ℕ → Nominations → Call L
  put_nominator acc n = modify λ s. record s { nominators = Map.insert acc n s.nominators }

  abbrev pub remove_nominator : ℕ → Call L
  remove_nominator acc = modify λ s. record s { nominators = Map.remove acc s.nominators }

  abbrev pub get_nominator : ℕ → M L Nominations
  get_nominator acc = do
    found ← gets (λ s. Map.lookup acc s.nominators)
    ok_or found Error.nominator_dne

  unfoldable pub switch_nomination : Option ℕ → ℕ → ℕ → Call L
  unfolding update_active
  switch_nomination origin old new = do
    acc ← ensure_signed origin
    ensure (not (old == new)) Error.cannot_switch_to_same_nomination
    nominator ← get_nominator acc
    old_validator ← get_candidate old
    new_validator ← get_candidate new
    let (nominator', swapped) = Nominator.swap_nomination old new nominator
    (swapped_amt, new_amt) ← ok_or swapped Error.nomination_dne
    let (old_validator', new_old) = Validator.rm_nominator acc old_validator
    let (new_validator', new_new) = receive_nomination acc swapped_amt new_amt new_validator
    update_if_active old_validator' old new_old
    update_if_active new_validator' new new_new
    put_candidate old old_validator'
    put_candidate new new_validator'
    put_nominator acc nominator'
    deposit_event (Event.nomination_swapped acc swapped_amt old new)

  module _ (cfg : Config L) where
    unfoldable pub nominator_joins_validator : ℕ → ℕ → ℕ → Call L
    unfolding update_active
    nominator_joins_validator nominator amount validator = do
      state ← get_candidate validator
      let (nominators, inserted) =
          OrderedSet.insert owner_of (record { owner = nominator; amount = amount })
            state.nominators
      ensure inserted Error.nominator_exists
      ensure (leb (length nominators) cfg.max_nominators_per_validator) Error.too_many_nominators
      reserve cfg nominator amount
      let new_total = add_u128 state.total amount
      update_if_active state validator new_total
      modify (λ s. record s { total = add_u128 s.total amount })
      put_candidate validator (record state { nominators = nominators; total = new_total })
      deposit_event (Event.validator_nominated nominator amount validator new_total)

    unfoldable pub nominator_leaves_validator : ℕ → ℕ → Call L
    unfolding update_active
    nominator_leaves_validator nominator validator = do
      state ← get_candidate validator
      nominator_stake ←
          ok_or (Nominator.last_amount nominator none state.nominators) Error.nominator_dne
      unreserve cfg nominator nominator_stake
      let new_total = sub_u128 state.total nominator_stake
      update_if_active state validator new_total
      modify (λ s. record s { total = sub_u128 s.total nominator_stake })
      put_candidate validator (record state {
        nominators = OrderedSet.from owner_of (Validator.without nominator state.nominators);
        total = new_total;
      })
      deposit_event (Event.nominator_left_validator nominator validator nominator_stake new_total)

    unfoldable pub nominator_revokes_validator : ℕ → ℕ → Call L
    nominator_revokes_validator acc validator = do
      nominator ← get_nominator acc
      let (nominator', removed) = Nominator.rm_nomination validator nominator
      remaining ← ok_or removed Error.nomination_dne
      ensure (leb cfg.min_nominator_stk remaining) Error.nom_bond_below_min
      nominator_leaves_validator acc validator
      put_nominator acc nominator'

    unfoldable pub join_nominators : Option ℕ → ℕ → ℕ → Call L
    unfolding is_candidate is_nominator
    join_nominators origin validator amount = do
      acc ← ensure_signed origin
      ensure (leb cfg.min_nominator_stk amount) Error.nom_bond_below_min
      ensure (not (← gets (is_nominator acc))) Error.nominator_exists
      ensure (not (← gets (is_candidate acc))) Error.candidate_exists
      nominator_joins_validator acc amount validator
      put_nominator acc (Nominator.new validator amount)
      deposit_event (Event.nominator_joined acc amount)

    -- The loop of `leave_nominators`: it stops at the first error.
    unfoldable pub leave_each : ℕ → List Bond → Call L
    leave_each acc [] = pure tt
    leave_each acc (bond ∷ bonds) = do
      nominator_leaves_validator acc bond.owner
      leave_each acc bonds

    unfoldable pub leave_nominators : Option ℕ → Call L
    leave_nominators origin = do
      acc ← ensure_signed origin
      nominator ← get_nominator acc
      leave_each acc nominator.nominations
      remove_nominator acc
      deposit_event (Event.nominator_left acc nominator.total)

    unfoldable pub nominate_new : Option ℕ → ℕ → ℕ → Call L
    unfolding update_active
    nominate_new origin validator amount = do
      acc ← ensure_signed origin
      ensure (leb cfg.min_nomination amount) Error.nomination_below_min
      nominator ← get_nominator acc
      ensure (ltb (length nominator.nominations) cfg.max_validators_per_nominator)
          Error.exceed_max_validators_per_nom
      state ← get_candidate validator
      let (nominator', added) =
          Nominator.add_nomination (record { owner = validator; amount = amount }) nominator
      ensure added Error.already_nominated_validator
      ensure (ltb (length state.nominators) cfg.max_nominators_per_validator)
          Error.too_many_nominators
      let (nominators, inserted) =
          OrderedSet.insert owner_of (record { owner = acc; amount = amount }) state.nominators
      ensure inserted Error.nominator_exists
      reserve cfg acc amount
      let new_total = add_u128 state.total amount
      update_if_active state validator new_total
      modify (λ s. record s { total = add_u128 s.total amount })
      put_candidate validator (record state { nominators = nominators; total = new_total })
      put_nominator acc nominator'
      deposit_event (Event.validator_nominated acc amount validator new_total)

    unfoldable pub revoke_nomination : Option ℕ → ℕ → Call L
    revoke_nomination origin validator = do
      acc ← ensure_signed origin
      nominator_revokes_validator acc validator

    unfoldable pub nominator_bond_more : Option ℕ → ℕ → ℕ → Call L
    unfolding update_active
    nominator_bond_more origin candidate more = do
      nominator ← ensure_signed origin
      nominations ← get_nominator nominator
      validator ← get_candidate candidate
      let (nominations', increased) = Nominator.inc_nomination candidate more nominations
      amount ← ok_or increased Error.nomination_dne
      reserve cfg nominator more
      let after = Validator.inc_nominator nominator more validator
      update_if_active after candidate after.total
      put_candidate candidate after
      put_nominator nominator nominations'
      deposit_event (Event.nomination_increased nominator candidate validator.total after.total)

    unfoldable pub nominator_bond_less : Option ℕ → ℕ → ℕ → Call L
    unfolding update_active
    nominator_bond_less origin candidate less = do
      nominator ← ensure_signed origin
      nominations ← get_nominator nominator
      validator ← get_candidate candidate
      let (nominations', decreased) = Nominator.dec_nomination candidate less nominations
      outcome ← ok_or decreased Error.nomination_dne
      remaining ← ok_or outcome Error.underflow
      ensure (leb cfg.min_nomination remaining) Error.nomination_below_min
      ensure (leb cfg.min_nominator_stk nominations'.total) Error.nom_bond_below_min
      unreserve cfg nominator less
      let after = Validator.dec_nominator nominator less validator
      update_if_active after candidate after.total
      put_candidate candidate after
      put_nominator nominator nominations'
      deposit_event (Event.nomination_decreased nominator candidate validator.total after.total)
