-- ===== src/Stake/CandidateCalls.antt =====
-- The dispatchables of pallets/stake/src/lib.rs for validator candidates, with `update_active`.
-- The argument `origin` is what `ensure_signed` finds.
use moonbeam.Base.{ℕ, List, Bool, not, Option, leb, is_some, if◌then◌else◌, add_u32, add_u128}
use moonbeam.Base.Map
use moonbeam.OrderedSet
use moonbeam.Stake.Types.{Bond, owner_of, Validator, Event, Error}
use moonbeam.Stake.Validator
use moonbeam.Stake.Validator.{is_active, is_leaving}
use moonbeam.Stake.Storage.{
  Config, State, M, Call, gets, ok_or, modify, ensure, ensure_signed, deposit_event, reserve,
  unreserve, ◌>>=◌, ◌>>◌,
}

-- The pool with a candidate's bond taken out and put in again at a new total.
unfoldable pub update_pool : ℕ → ℕ → List Bond → List Bond
update_pool candidate total pool =
    (OrderedSet.insert owner_of (record { owner = candidate; amount = total })
      (OrderedSet.remove owner_of candidate pool).0).0

-- The pool that is in storage after a removal, which writes it back only if it took a bond out.
unfoldable pub pool_without : ℕ → List Bond → List Bond
pool_without candidate pool =
    let (candidates, removed) = OrderedSet.remove owner_of candidate pool in
    if removed then candidates else pool

module _ {L : Type 0} where
  unfoldable pub is_nominator : ℕ → State L → Bool
  is_nominator acc s = is_some (Map.lookup acc s.nominators)

  unfoldable pub is_candidate : ℕ → State L → Bool
  is_candidate acc s = is_some (Map.lookup acc s.candidates)

  unfoldable pub is_validator : ℕ → State L → Bool
  is_validator acc s = OrderedSet.contains (λ (a : ℕ). a) acc s.validators

  unfoldable pub update_active : ℕ → ℕ → State L → State L
  update_active candidate total s = record s {
    candidate_pool = update_pool candidate total s.candidate_pool;
  }

  -- `if v.is_active() { Self::update_active(..) }`
  abbrev pub update_if_active : Validator → ℕ → ℕ → Call L
  update_if_active v candidate total = modify λ s. record s {
    candidate_pool =
        if is_active v then (update_active candidate total s).candidate_pool else s.candidate_pool;
  }

  -- `if candidates.remove(..) { <CandidatePool<T>>::put(candidates); }`
  unfoldable pub remove_from_pool : ℕ → State L → State L
  unfolding pool_without
  remove_from_pool candidate s = record s {
    candidate_pool = pool_without candidate s.candidate_pool;
  }

  abbrev pub put_candidate : ℕ → Validator → Call L
  put_candidate acc v = modify λ s. record s { candidates = Map.insert acc v s.candidates }

  abbrev pub get_candidate : ℕ → M L Validator
  get_candidate acc = do
    found ← gets (λ s. Map.lookup acc s.candidates)
    ok_or found Error.candidate_dne

  unfoldable pub go_offline : Option ℕ → Call L
  unfolding remove_from_pool
  go_offline origin = do
    validator ← ensure_signed origin
    state ← get_candidate validator
    ensure (is_active state) Error.already_offline
    modify (remove_from_pool validator)
    put_candidate validator (Validator.go_offline state)
    deposit_event (Event.validator_went_offline (← gets (λ s. s.round)) validator)

  unfoldable pub go_online : Option ℕ → Call L
  go_online origin = do
    validator ← ensure_signed origin
    state ← get_candidate validator
    ensure (not (is_active state)) Error.already_active
    ensure (not (is_leaving state)) Error.cannot_activate_if_leaving
    (candidates, inserted) ← gets (λ s.
        OrderedSet.insert owner_of (record { owner = validator; amount = state.total })
          s.candidate_pool)
    ensure inserted Error.already_active
    modify (λ s. record s { candidate_pool = candidates })
    put_candidate validator (Validator.go_online state)
    deposit_event (Event.validator_back_online (← gets (λ s. s.round)) validator)

  module _ (cfg : Config L) where
    unfoldable pub join_candidates : Option ℕ → ℕ → ℕ → Call L
    unfolding is_candidate is_nominator
    join_candidates origin fee bond = do
      acc ← ensure_signed origin
      ensure (not (← gets (is_candidate acc))) Error.candidate_exists
      ensure (not (← gets (is_nominator acc))) Error.nominator_exists
      ensure (leb fee cfg.max_fee) Error.fee_over_max
      ensure (leb cfg.min_validator_stk bond) Error.val_bond_below_min
      (candidates, inserted) ←
          gets (λ s.
            OrderedSet.insert owner_of (record { owner = acc; amount = bond }) s.candidate_pool)
      ensure inserted Error.candidate_exists
      reserve cfg acc bond
      new_total ← gets (λ s. add_u128 s.total bond)
      modify (λ s. record s { total = new_total })
      put_candidate acc (Validator.new acc fee bond)
      modify (λ s. record s { candidate_pool = candidates })
      deposit_event (Event.joined_validator_candidates acc bond new_total)

    unfoldable pub leave_candidates : Option ℕ → Call L
    unfolding remove_from_pool
    leave_candidates origin = do
      validator ← ensure_signed origin
      state ← get_candidate validator
      ensure (not (is_leaving state)) Error.already_leaving
      now ← gets (λ s. s.round)
      let when = add_u32 now cfg.bond_duration
      (exits, inserted) ← gets (λ s.
          OrderedSet.insert owner_of (record { owner = validator; amount = when }) s.exit_queue)
      ensure inserted Error.already_leaving
      modify (remove_from_pool validator)
      modify (λ s. record s { exit_queue = exits })
      put_candidate validator (Validator.leave_candidates when state)
      deposit_event (Event.validator_scheduled_exit now validator when)

    unfoldable pub candidate_bond_more : Option ℕ → ℕ → Call L
    unfolding update_active
    candidate_bond_more origin more = do
      validator ← ensure_signed origin
      state ← get_candidate validator
      ensure (not (is_leaving state)) Error.cannot_activate_if_leaving
      reserve cfg validator more
      let after = Validator.bond_more more state
      update_if_active after validator after.total
      put_candidate validator after
      deposit_event (Event.validator_bonded_more validator state.bond after.bond)

    unfoldable pub candidate_bond_less : Option ℕ → ℕ → Call L
    unfolding update_active
    candidate_bond_less origin less = do
      validator ← ensure_signed origin
      state ← get_candidate validator
      ensure (not (is_leaving state)) Error.cannot_activate_if_leaving
      let (after, bonded) = Validator.bond_less less state
      bond ← ok_or bonded Error.underflow
      ensure (leb cfg.min_validator_stk bond) Error.val_bond_below_min
      unreserve cfg validator less
      update_if_active after validator after.total
      put_candidate validator after
      deposit_event (Event.validator_bonded_less validator state.bond bond)
