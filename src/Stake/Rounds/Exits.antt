-- ===== src/Stake/Rounds/Exits.antt =====
-- The delayed exits: a candidate is removed exactly when its exit is due.
use moonbeam.Base.{
  ℕ, ◌≡◌, refl, Option, none, some, List, [], ◌∷◌, arith, ◌==◌, ltb, leb, if◌then◌else◌,
  Option-cases, inl, inr,
}
use moonbeam.Base.Map
use moonbeam.Base.Map.{Map, lookup-remove}
use moonbeam.OrderedSet.{IsSorted, find}
use moonbeam.OrderedSet.Search.{Above-IsSorted, find_below}
use moonbeam.OrderedSet.From.{find-from, from-IsSorted}
use moonbeam.Stake.Types.{Bond, owner_of, active, idle, leaving, Validator}
use moonbeam.Stake.Storage.{Config, State}
use moonbeam.Stake.Agrees.{IsConsistent}
use moonbeam.Stake.Rounds.{
  drop_nomination, release_nominators, exit_validator, process_exits,
  execute_delayed_validator_exits,
}

-- What the removal of nominations leaves alone.
record SameCandidates {L : Type 0} (s t : State L) : Type 0 where
  candidates : t.candidates ≡ s.candidates
  candidate_pool : t.candidate_pool ≡ s.candidate_pool
  exit_queue : t.exit_queue ≡ s.exit_queue
  round : t.round ≡ s.round

module _ {L : Type 0} (cfg : Config L) where
  drop_nomination-SameCandidates :
      (v n : ℕ) (s : State L) → SameCandidates s (drop_nomination v n s)
  unfolding drop_nomination
  drop_nomination-SameCandidates v n s = ground arith

  release_nominators-SameCandidates :
      (v : ℕ) (bonds : List Bond) (s : State L)
      → SameCandidates s (release_nominators cfg v bonds s)
  unfolding release_nominators
  release_nominators-SameCandidates v [] s = ground arith
  release_nominators-SameCandidates v (b ∷ bonds) s =
      let paid = record s { ledger = cfg.unreserve b.owner b.amount s.ledger } in
      ground (
        arith,
        drop_nomination-SameCandidates v b.owner paid,
        release_nominators-SameCandidates v bonds (drop_nomination v b.owner paid),
      )

  exit_validator-frame :
      (owner : ℕ) (s : State L)
      → let t = exit_validator cfg owner s in
        (t.candidate_pool ≡ s.candidate_pool) × (t.exit_queue ≡ s.exit_queue) × (t.round ≡ s.round)
  unfolding exit_validator
  exit_validator-frame owner s = elim (Option-cases (Map.lookup owner s.candidates)) [
    | inl e ↦ ground arith
    | inr (v, e) ↦ ground (arith, release_nominators-SameCandidates owner v.nominators s)
  ]

  lookup-exit_validator :
      (owner a : ℕ) (s : State L)
      → Map.lookup a (exit_validator cfg owner s).candidates
        ≡ (if owner == a then none else Map.lookup a s.candidates)
  unfolding exit_validator
  lookup-exit_validator owner a s = elim (Option-cases (Map.lookup owner s.candidates)) [
    | inl e ↦ ground arith
    | inr (v, e) ↦ ground (
      arith,
      release_nominators-SameCandidates owner v.nominators s,
      lookup-remove owner a s.candidates,
    )
  ]

  process_exits-frame :
      (next : ℕ) (xs : List Bond) (s : State L)
      → let t = (process_exits cfg next xs s).1 in
        (t.candidate_pool ≡ s.candidate_pool) × (t.round ≡ s.round)
  unfolding process_exits
  process_exits-frame next [] s = ground arith
  process_exits-frame next (x ∷ xs) s = ground (
    arith,
    exit_validator-frame x.owner s,
    process_exits-frame next xs s,
    process_exits-frame next xs (exit_validator cfg x.owner s),
  )

-- The exit that stays queued, and the candidate that stays, by the exit queued for an account.
abbrev pub still_queued : ℕ → Option Bond → Option Bond
still_queued next none = none
still_queued next (some b) = if ltb next b.amount then some b else none

abbrev pub survivor : ℕ → Option Bond → Option Validator → Option Validator
survivor next none v = v
survivor next (some b) v = if ltb next b.amount then v else none

-- What becomes of a candidate: it goes if it was leaving by this round.
abbrev pub after_exits : ℕ → Option Validator → Option Validator
after_exits next none = none
after_exits next (some v) = elim v.state [
  | active ↦ some v
  | idle ↦ some v
  | leaving when ↦ if leb when next then none else some v
]

module _ {L : Type 0} (cfg : Config L) where
  find-process_exits :
      (next a : ℕ) (xs : List Bond) (s : State L)
      → IsSorted owner_of xs
      → find owner_of a (process_exits cfg next xs s).0 ≡ still_queued next (find owner_of a xs)
  unfolding process_exits find
  find-process_exits next a [] s h = refl
  find-process_exits next a (x ∷ xs) s h = ground (
    arith,
    find-process_exits next a xs s (Above-IsSorted owner_of x.owner xs h),
    find-process_exits next a xs (exit_validator cfg x.owner s)
        (Above-IsSorted owner_of x.owner xs h),
    find_below owner_of a x.owner xs h,
  )

  lookup-process_exits :
      (next a : ℕ) (xs : List Bond) (s : State L)
      → IsSorted owner_of xs
      → Map.lookup a (process_exits cfg next xs s).1.candidates
        ≡ survivor next (find owner_of a xs) (Map.lookup a s.candidates)
  unfolding process_exits find
  lookup-process_exits next a [] s h = refl
  lookup-process_exits next a (x ∷ xs) s h = ground (
    arith,
    lookup-process_exits next a xs s (Above-IsSorted owner_of x.owner xs h),
    lookup-process_exits next a xs (exit_validator cfg x.owner s)
        (Above-IsSorted owner_of x.owner xs h),
    lookup-exit_validator cfg x.owner a s,
    find_below owner_of a x.owner xs h,
  )

  -- In a consistent storage, the exits that are due remove exactly the candidates that leave by
  -- the round `next`; every other candidate stays as it is.
  -- From a consistent storage the delayed exits remove exactly the candidates that are leaving at the
  -- round or before it, and leave every other candidate as it was.
  pub lookup-execute_delayed_validator_exits :
      (next a : ℕ) (s : State L)
      → IsConsistent s
      → Map.lookup a (execute_delayed_validator_exits cfg next s).candidates
        ≡ after_exits next (Map.lookup a s.candidates)
  unfolding execute_delayed_validator_exits
  lookup-execute_delayed_validator_exits next a s h =
      ground (arith, lookup-process_exits next a s.exit_queue s h.exits_sorted, h.exits_agree a)

  pub execute_delayed_validator_exits-IsConsistent :
      (next : ℕ) (s : State L)
      → IsConsistent s
      → IsConsistent (execute_delayed_validator_exits cfg next s)
  unfolding execute_delayed_validator_exits
  execute_delayed_validator_exits-IsConsistent next s h =
      let frame = process_exits-frame cfg next s.exit_queue s in
      record {
        pool_sorted = rw frame.0 h.pool_sorted;
        exits_sorted = from-IsSorted owner_of _;
        pool_agrees = λ a. ground (
          arith,
          frame.0,
          lookup-process_exits next a s.exit_queue s h.exits_sorted,
          h.exits_agree a,
          h.pool_agrees a,
        );
        exits_agree = λ a. ground (
          arith,
          find-from owner_of a (process_exits cfg next s.exit_queue s).0,
          find-process_exits next a s.exit_queue s h.exits_sorted,
          lookup-process_exits next a s.exit_queue s h.exits_sorted,
          h.exits_agree a,
        );
      }

  pub execute_delayed_validator_exits-pool :
      (next : ℕ) (s : State L)
      → (execute_delayed_validator_exits cfg next s).candidate_pool ≡ s.candidate_pool
  unfolding execute_delayed_validator_exits
  execute_delayed_validator_exits-pool next s = (process_exits-frame cfg next s.exit_queue s).0
