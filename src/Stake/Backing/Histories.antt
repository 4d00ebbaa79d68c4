-- ===== src/Stake/Backing/Histories.antt =====
-- The reserved balances are the stakes through the histories of pallets/stake/src/lib.rs.
use moonbeam.Base.{ℕ, ◌≡◌, Option, none, some, List, [], ◌∷◌}
use moonbeam.Base.Map
use moonbeam.Stake.Validator.Bonds.{sum}
use moonbeam.Stake.Storage.{Config, State, Result, ok, err, panicked, Call}
use moonbeam.Stake.Storage.Ends.{
  Ends, Ends-gets, Ends-then, Ends-event, Ends-also, Ends-call, Ends-pure, Ends-or_panic_last,
}
use moonbeam.Stake.Rounds.{
  forget_error, ignore_error, genesis_call, genesis_staker, genesis_stakers, genesis_build,
}
use moonbeam.Stake.Rounds.Snapshots.{SameStakers, best_candidates-SameStakers}
use moonbeam.Stake.Sides.Candidates.{join_candidates-Matches}
use moonbeam.Stake.Sides.Nominators.{join_nominators-Matches}
use moonbeam.Stake.Sides.Histories.{blank-IsMatched}
use moonbeam.Stake.Backing.{Reserves, IsBacked}
use moonbeam.Stake.Backing.Candidates.{join_candidates-Stakes}
use moonbeam.Stake.Backing.Nominators.{join_nominators-Stakes}
use moonbeam.Stake.Runs.{Step, step, run}
use moonbeam.Stake.Backing.Steps.{Fair, HasMinimums, step-Backs}

-- A call that ends with the reserved balances equal to the stakes.
abbrev Backs : {L A : Type 0} → (ℕ → L → ℕ) → Result A × State L → Type 0
Backs reserved = Ends (λ r t. IsBacked reserved t)

module _ {L : Type 0} (cfg : Config L) (laws : Reserves cfg) (min : HasMinimums cfg) where
  unfoldable pub AllFair : List (Step L) → State L → Type 0
  AllFair [] s = Unit
  AllFair (x ∷ xs) s = Fair laws.reserved x s × AllFair xs (step cfg x s).1

  run-Backed :
      (xs : List (Step L)) (s : State L)
      → IsBacked laws.reserved s
      → AllFair xs s
      → IsBacked laws.reserved (run cfg xs s)
  unfolding run AllFair
  run-Backed [] s h f = h
  run-Backed (x ∷ xs) s h f = run-Backed xs _ (step-Backs cfg laws min x s h f.0) f.1

  ignore_error-Backs :
      (m : Call L) (s : State L)
      → Backs laws.reserved (m s)
      → Backs laws.reserved (ignore_error m s)
  unfolding ignore_error
  ignore_error-Backs m s kept = go (m s).0 (m s).1 kept.holds
    where
      go :
          (r : Result (Unit {0})) (t : State L)
          → IsBacked laws.reserved t
          → Backs laws.reserved (forget_error (r, t))
      go (ok a) t h = record { holds = h }
      go (err e) t h = record { holds = h }
      go panicked t h = record { holds = h }

  genesis_call-Backs :
      (actor : ℕ) (opt_val : Option ℕ) (balance : ℕ) (s : State L)
      → IsBacked laws.reserved s
      → Backs laws.reserved (genesis_call cfg actor opt_val balance s)
  unfolding genesis_call
  genesis_call-Backs actor none balance s h =
      let (exact, stakes) =
        (join_candidates-Stakes cfg laws s (h.exact, h.stakes) (some actor) 0 balance).holds in
      record {
        holds = record {
          matched = (join_candidates-Matches s h.matched cfg (some actor) 0 balance).holds;
          exact = exact;
          stakes = stakes;
        };
      }
  genesis_call-Backs actor (some v) balance s h =
      let (exact, stakes) =
        (join_nominators-Stakes cfg laws s h min.nominator (some actor) v balance).holds in
      record {
        holds = record {
          matched = (join_nominators-Matches cfg s h.matched (some actor) v balance).holds;
          exact = exact;
          stakes = stakes;
        };
      }

  genesis_stakers-Backs :
      (xs : List (ℕ × Option ℕ × ℕ)) (s : State L)
      → IsBacked laws.reserved s
      → Backs laws.reserved (genesis_stakers cfg xs s)
  unfolding genesis_stakers genesis_staker
  genesis_stakers-Backs [] s h = Ends-pure _ _ h
  genesis_stakers-Backs ((actor, opt_val, balance) ∷ xs) s h =
      Ends-also _ _ _
        (Ends-gets _ _ _ (
          Ends-also _ _ _ (Ends-or_panic_last _ _ h (λ a. h))
            λ t k. ignore_error-Backs _ t (genesis_call-Backs actor opt_val balance t k)))
        λ t k. genesis_stakers-Backs xs t k

  SameStakers-IsBacked :
      (s t : State L)
      → (t.nominators ≡ s.nominators) × (t.candidates ≡ s.candidates) × (t.ledger ≡ s.ledger)
      → IsBacked laws.reserved s
      → IsBacked laws.reserved t
  SameStakers-IsBacked s t q h = record {
    matched = rw (q.0, q.1) h.matched;
    exact = rw q.0 h.exact;
    stakes = rw (q.0, q.1, q.2) h.stakes;
  }

  genesis_build-Backs :
      (xs : List (ℕ × Option ℕ × ℕ)) (s : State L)
      → IsBacked laws.reserved s
      → Backs laws.reserved (genesis_build cfg xs s)
  unfolding genesis_build
  genesis_build-Backs xs s h = Ends-also _ _ _ (genesis_stakers-Backs xs s h) λ t k.
      Ends-call (SameStakers t) _ _ _ (best_candidates-SameStakers t cfg 1)
        (λ e u q. SameStakers-IsBacked t u q k) (λ u q. SameStakers-IsBacked t u q k)
        λ counts u q. Ends-then _ _ _ (
          Ends-event _ _ (
            let b = SameStakers-IsBacked t u q k in
            record { matched = b.matched; exact = b.exact; stakes = b.stakes }))

  blank-IsBacked :
      (s : State L)
      → s.candidates ≡ []
      → s.nominators ≡ []
      → ((a : ℕ) → laws.reserved a s.ledger ≡ 0)
      → IsBacked laws.reserved s
  unfolding Map.lookup sum
  blank-IsBacked s p q z = record {
    matched = blank-IsMatched cfg s p q;
    exact = rw q (λ a n e. cc);
    stakes = rw (p, q) (record { ids = λ c v e. cc; backed = z });
  }

  -- After the genesis build on a storage without candidates and nominators and a ledger without
  -- reserved balances, and any history of dispatchables, hooks and changes elsewhere in which each
  -- switch goes to a validator that the signer has not nominated and the changes elsewhere leave the
  -- reserved balances alone, with minimums above zero and a currency that reserves and gives back as
  -- documented: the reserved balance of every account is its bond as a candidate and the sum of its
  -- nominations, every nominator's total is that sum without overflow, and what a candidate lists of an
  -- account is what the account has nominated it with.
  pub run-IsBacked :
      (stakers : List (ℕ × Option ℕ × ℕ)) (xs : List (Step L)) (s : State L)
      → s.candidates ≡ []
      → s.nominators ≡ []
      → ((a : ℕ) → laws.reserved a s.ledger ≡ 0)
      → AllFair xs (genesis_build cfg stakers s).1
      → IsBacked laws.reserved (run cfg xs (genesis_build cfg stakers s).1)
  run-IsBacked stakers xs s p q z f =
      run-Backed xs _ (genesis_build-Backs stakers s (blank-IsBacked s p q z)).holds f
