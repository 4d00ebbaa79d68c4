-- ===== src/Stake/BackingTests.antt =====
-- A currency with reserved balances, and a history with a switch, an exit and the ends of rounds.
use moonbeam.Base.{
  ℕ, ◌+◌, ◌-◌, ◌*◌, ◌/◌, ◌%◌, ◌^◌, ◌<◌, ◌≡◌, refl, sym, ap, ◌∙◌, none, some, Option, List, [], ◌∷◌,
  arith, ◌==◌, ltb, if◌then◌else◌, Bool-cases, inl, inr,
}
use mathlib.Core.Path.{subst}
use moonbeam.Base
use moonbeam.Base.Map
use moonbeam.OrderedSet
use moonbeam.Stake.Validator
use moonbeam.Stake.Nominator
use moonbeam.Stake.Inflation
use moonbeam.Stake.Storage
use moonbeam.Stake.Storage.{Config, State}
use moonbeam.Stake.Example
use moonbeam.Stake.Example.{sort_amounts}
use moonbeam.Stake.CandidateCalls
use moonbeam.Stake.NominatorCalls
use moonbeam.Stake.Payouts
use moonbeam.Stake.Rounds
use moonbeam.Stake.Rounds.{genesis_build}
use moonbeam.Stake.Runs.{Step, step, run}
use moonbeam.Stake.Backing.{Reserves, IsBacked}
use moonbeam.Stake.Backing.Steps.{HasMinimums, Fair}
use moonbeam.Stake.Backing.Histories.{AllFair, run-IsBacked}

-- A ledger is the reserved balance of each account.
abbrev Ledger : Type 0
Ledger = ℕ → ℕ

unfoldable accounts : Config Ledger
accounts = record {
  blocks_per_round = 5;
  bond_duration = 2;
  max_validators = 2;
  max_nominators_per_validator = 4;
  max_validators_per_nominator = 4;
  max_fee = 500000000;
  min_validator_stk = 10;
  min_nomination = 3;
  min_nominator_stk = 5;
  reserve = λ acc amount l.
      if ltb (l acc + amount) (2 ^ 128)
      then some (λ a. if acc == a then l a + amount else l a)
      else none;
  unreserve = λ acc amount l a. if acc == a then l a % 2 ^ 128 - amount else l a;
  deposit_into_existing = λ acc amount l. some (l, amount);
  minimum_balance = 0;
  total_issuance = λ l. 1000;
  free_balance = λ acc l. 1000;
  from_parts = λ parts. parts;
  from_rational_approximation = λ p q. p * 1000000000 / q;
  perbill_mul = λ p x. p * x / 1000000000;
  drain_order = λ entries. entries;
  sort_unstable_by_amount = sort_amounts;
}

-- The reserved balance in the ledger that a call of the currency may give.
abbrev reserved_in : ℕ → Option Ledger → ℕ
reserved_in a none = 0
reserved_in a (some l) = l a % 2 ^ 128

abbrev deposited_in : ℕ → Option (Ledger × ℕ) → ℕ
deposited_in a none = 0
deposited_in a (some (l, amount)) = l a % 2 ^ 128

IsSome : {A : Type 0} → Option A → Type 0
IsSome none = ⊥
IsSome (some a) = Unit

reserves_lem :
    (acc amount : ℕ) (l l' : Ledger)
    → accounts.reserve acc amount l ≡ some l'
    → (a : ℕ) → l' a % 2 ^ 128 ≡ (if acc == a then l a % 2 ^ 128 + amount else l a % 2 ^ 128)
unfolding accounts IsSome
reserves_lem acc amount l l' h a = elim (Bool-cases (ltb (l acc + amount) (2 ^ 128))) [
  | inl e ↦ sym (ap (reserved_in a) h) ∙ rw e (ground arith)
  | inr e ↦
      let refused : accounts.reserve acc amount l ≡ none = rw e refl in
      absurd (subst IsSome (sym h ∙ refused) tt)
]

fits_lem : (a : ℕ) (l : Ledger) → l a % 2 ^ 128 < 2 ^ 128
fits_lem a l = omega arith

unreserves_lem :
    (acc amount : ℕ) (l : Ledger) (a : ℕ)
    → accounts.unreserve acc amount l a % 2 ^ 128
      ≡ (if acc == a then l a % 2 ^ 128 - amount else l a % 2 ^ 128)
unfolding accounts
unreserves_lem acc amount l a = ground arith

unfoldable account_reserves : Reserves accounts
unfolding accounts
account_reserves = record {
  reserved = λ a l. l a % 2 ^ 128;
  fits = fits_lem;
  reserves = reserves_lem;
  unreserves = unreserves_lem;
  deposits = λ acc amount l p h a. sym (ap (deposited_in a) h);
}

unfoldable unreserved : State Ledger
unreserved = record {
  round = 0;
  nominators = [];
  candidates = [];
  validators = [];
  total = 0;
  candidate_pool = [];
  exit_queue = [];
  at_stake = λ round account. record { fee = 0; bond = 0; nominators = []; total = 0 };
  staked = λ round. 0;
  inflation_config = record {
    expect = record { min = 0; ideal = 0; max = 0 };
    round = record { min = 0; ideal = 0; max = 0 };
  };
  points = λ round. 0;
  awarded_pts = λ round. [];
  ledger = λ a. 0;
  events = [];
}

accounts-HasMinimums : HasMinimums accounts
unfolding accounts
accounts-HasMinimums = record { nomination = omega arith; nominator = omega arith }

unreserved_blank :
    (unreserved.candidates ≡ [])
    × (unreserved.nominators ≡ [])
    × ((a : ℕ) → account_reserves.reserved a unreserved.ledger ≡ 0)
unfolding unreserved account_reserves
unreserved_blank = (refl, refl, λ a. refl)

abbrev stakers : List (ℕ × Option ℕ × ℕ)
stakers = (7, none, 20) ∷ (8, none, 30) ∷ (9, some 7, 6) ∷ []

abbrev history : List (Step Ledger)
history =
    Step.join_candidates (some 5) 0 25
    ∷ Step.nominate_new (some 9) 8 4
    ∷ Step.switch_nomination (some 9) 7 5
    ∷ Step.candidate_bond_more (some 5) 3
    ∷ Step.leave_candidates (some 8)
    ∷ Step.on_finalize 5
    ∷ Step.on_finalize 10
    ∷ Step.on_finalize 15
    ∷ []

history-AllFair :
    AllFair accounts account_reserves accounts-HasMinimums history
      (genesis_build accounts stakers unreserved).1
unfolding accounts account_reserves unreserved Fair Map.lookup Map.insert Map.remove genesis_build
    Rounds.genesis_stakers Rounds.genesis_staker Rounds.genesis_call Rounds.ignore_error
    Rounds.best_candidates_become_validators Rounds.snapshot_each Rounds.select
    CandidateCalls.join_candidates NominatorCalls.join_nominators
    NominatorCalls.nominator_joins_validator CandidateCalls.is_nominator CandidateCalls.is_candidate
    CandidateCalls.update_active CandidateCalls.update_pool Nominator.new Validator.new
    OrderedSet.insert OrderedSet.binary_search OrderedSet.search_loop OrderedSet.search_end
    OrderedSet.probe OrderedSet.from OrderedSet.sort OrderedSet.sort_insert OrderedSet.dedup
    OrderedSet.dedup_after OrderedSet.remove Storage.gets Storage.ok_or Storage.ensure
    Storage.ensure_signed Storage.modify Storage.deposit_event Storage.reserve Storage.pure
    Storage.or_panic Storage.◌>>=◌ Storage.◌>>◌ Example.sort_amounts Example.place Base.add_u128
    Rounds.on_finalize Rounds.end_round Rounds.execute_delayed_validator_exits Rounds.process_exits
    Payouts.pay_stakers Base.add_u32 CandidateCalls.leave_candidates
    NominatorCalls.switch_nomination NominatorCalls.nominate_new Nominator.add_nomination
    Nominator.swap_nomination Nominator.swap_into Nominator.last_amount
    NominatorCalls.receive_nomination Validator.add_nominator Validator.rm_nominator
    Validator.subtract_owned Validator.without Base.sub_u128 CandidateCalls.pool_without
    CandidateCalls.remove_from_pool Nominator.rm_nomination Rounds.drop_nomination
    Rounds.exit_validator Rounds.release_nominators Storage.unreserve Payouts.pay_round
    Payouts.pay_each Inflation.compute_issuance OrderedSet.find step AllFair
history-AllFair = (tt, (tt, (refl, (tt, (tt, (tt, (tt, (tt, tt))))))))

run-IsBacked_example :
    IsBacked account_reserves.reserved
      (run accounts history (genesis_build accounts stakers unreserved).1)
run-IsBacked_example =
    run-IsBacked accounts account_reserves accounts-HasMinimums stakers history unreserved
      unreserved_blank.0 unreserved_blank.1 unreserved_blank.2 history-AllFair
