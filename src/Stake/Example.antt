-- ===== src/Stake/Example.antt =====
-- A concrete currency and configuration of the staking pallet, on which tests run: the free balance
-- of every account together is one number, and the sort is insertion.
use mathlib.Core.List.{Perm, Pairwise, eq-or-mem_of_mem-cons, not-mem-nil}
use mathlib.Core.List.Perm
use mathlib.Core.Logic.Or
use native.Mathlib.Bridge.{le_prop}
use moonbeam.Base.{
  ℕ, ◌+◌, ◌-◌, ◌*◌, ◌/◌, ◌≤◌, ◌≡◌, false, none, some, List, [], ◌∷◌, leb, if◌then◌else◌, Bool-cases,
  inl, inr, arith, leb→le,
}
use moonbeam.Stake.Types.{Bond}
use moonbeam.Stake.Storage.{Config, State}
use moonbeam.Stake.Rounds.Selection.{SortsByAmount}

unfoldable pub place : Bond → List Bond → List Bond
place b [] = b ∷ []
place b (x ∷ xs) = if leb b.amount x.amount then b ∷ x ∷ xs else x ∷ place b xs

unfoldable pub sort_amounts : List Bond → List Bond
unfolding place
sort_amounts [] = []
sort_amounts (b ∷ bonds) = place b (sort_amounts bonds)

abbrev Rising : List Bond → Type 0
Rising = Pairwise (λ a b. a.amount ≤ b.amount)

place-perm : (b : Bond) (xs : List Bond) → Perm (place b xs) (b ∷ xs)
unfolding place
place-perm b [] = Perm.refl _
place-perm b (x ∷ xs) = elim (Bool-cases (leb b.amount x.amount)) [
  | inl e ↦ rw e (Perm.refl _)
  | inr e ↦ rw e (Perm.trans (Perm.cons x (place-perm b xs)) (Perm.swap b x xs))
]

below : (a b c : ℕ) → a ≤ b → b ≤ c → a ≤ c
below a b c p q = omega arith

not_leb : (a b : ℕ) → leb a b ≡ false → b ≤ a
not_leb a b h = ground arith

place-Rising : (b : Bond) (xs : List Bond) → Rising xs → Rising (place b xs)
unfolding place
place-Rising b [] h = Pairwise.cons (λ c m. absurd (not-mem-nil m)) h
place-Rising b (x ∷ xs) (Pairwise.cons above h) = elim (Bool-cases (leb b.amount x.amount)) [
  | inl e ↦ rw e (
      Pairwise.cons
        (λ c m.
          Or.elim le_prop (eq-or-mem_of_mem-cons m) (λ same. rw same (leb→le _ _ e))
            (λ later. below _ _ _ (leb→le _ _ e) (above c later)))
        (Pairwise.cons above h))
  | inr e ↦ rw e (
      Pairwise.cons
        (λ c m.
          Or.elim le_prop (eq-or-mem_of_mem-cons ((Perm.mem_iff (place-perm b xs)).0 m))
            (λ same. rw same (omega (arith, not_leb _ _ e))) (λ later. above c later))
        (place-Rising b xs h))
]

sort_amounts-perm : (xs : List Bond) → Perm (sort_amounts xs) xs
unfolding sort_amounts
sort_amounts-perm [] = Perm.refl []
sort_amounts-perm (b ∷ xs) =
    Perm.trans (place-perm b (sort_amounts xs)) (Perm.cons b (sort_amounts-perm xs))

sort_amounts-Rising : (xs : List Bond) → Rising (sort_amounts xs)
unfolding sort_amounts
sort_amounts-Rising [] = Pairwise.nil
sort_amounts-Rising (b ∷ xs) = place-Rising b (sort_amounts xs) (sort_amounts-Rising xs)

pub sort_amounts-SortsByAmount : SortsByAmount sort_amounts
sort_amounts-SortsByAmount = record { permutes = sort_amounts-perm; rising = sort_amounts-Rising }

-- Rounds of 5 blocks, two validators, and small bonds.
unfoldable pub config : Config ℕ
config = record {
  blocks_per_round = 5;
  bond_duration = 2;
  max_validators = 2;
  max_nominators_per_validator = 4;
  max_validators_per_nominator = 4;
  max_fee = 500000000;
  min_validator_stk = 10;
  min_nomination = 3;
  min_nominator_stk = 5;
  reserve = λ acc amount l. if leb amount l then some (l - amount) else none;
  unreserve = λ acc amount l. l + amount;
  deposit_into_existing = λ acc amount l. some (l + amount, amount);
  minimum_balance = 0;
  total_issuance = λ l. l;
  free_balance = λ acc l. l;
  from_parts = λ parts. parts;
  from_rational_approximation = λ p q. p * 1000000000 / q;
  perbill_mul = λ p x. p * x / 1000000000;
  drain_order = λ entries. entries;
  sort_unstable_by_amount = sort_amounts;
}

-- The storage before genesis, with 1000 in the ledger.
unfoldable pub blank : State ℕ
blank = record {
  round = 0;
  nominators = [];
  candidates = [];
  validators = [];
  total = 0;
  candidate_pool = [];
  exit_queue = [];
  at_stake = λ round account. record { fee = 0; bond = 0; nominators = []; total = 0 };
  staked = λ round. 0;
  inflation_config = record {
    expect = record { min = 0; ideal = 0; max = 0 };
    round = record { min = 0; ideal = 0; max = 0 };
  };
  points = λ round. 0;
  awarded_pts = λ round. [];
  ledger = 1000;
  events = [];
}
