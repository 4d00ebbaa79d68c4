-- ===== src/Stake/Rounds/Snapshots.antt =====
-- The snapshots of pallets/stake/src/lib.rs write no candidates, nominators or balances.
use moonbeam.Base.{ℕ, ◌≡◌, refl, List, [], ◌∷◌}
use moonbeam.Stake.Storage.{Config, State, Result}
use moonbeam.Stake.Storage.Ends.{
  Ends, Ends-gets, Ends-then, Ends-log, Ends-or_panic, Ends-call, Ends-pure,
}
use moonbeam.Stake.Rounds.{snapshot_each, best_candidates_become_validators}

abbrev pub SameStakers : {L A : Type 0} → State L → Result A → State L → Type 0
SameStakers s r t =
    (t.nominators ≡ s.nominators) × (t.candidates ≡ s.candidates) × (t.ledger ≡ s.ledger)

module _ {L : Type 0} (s : State L) where
  snapshot_each-SameStakers :
      (next : ℕ) (accounts : List ℕ) (count total : ℕ) (t : State L)
      → (t.nominators ≡ s.nominators) × (t.candidates ≡ s.candidates) × (t.ledger ≡ s.ledger)
      → Ends (SameStakers s) (snapshot_each next accounts count total t)
  unfolding snapshot_each
  snapshot_each-SameStakers next [] count total t same = Ends-pure _ _ same
  snapshot_each-SameStakers next (a ∷ accounts) count total t same = Ends-gets _ _ _ (
      Ends-or_panic _ _ _ (λ missing. same)
        λ v found.
          Ends-then _ _ _ (Ends-log _ _ _ (snapshot_each-SameStakers next accounts _ _ _ same)))

  pub best_candidates-SameStakers :
      (cfg : Config L) (next : ℕ)
      → Ends (SameStakers s) (best_candidates_become_validators cfg next s)
  unfolding best_candidates_become_validators
  best_candidates-SameStakers cfg next = Ends-gets _ _ _ (
      Ends-call (SameStakers s) _ _ _ (snapshot_each-SameStakers next _ 0 0 s (refl, refl, refl))
        (λ e t q. q) (λ t q. q) λ chosen t q. Ends-then _ _ _ (Ends-pure _ _ q))
