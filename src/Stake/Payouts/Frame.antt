-- ===== src/Stake/Payouts/Frame.antt =====
-- Paying the stakers and awarding points leave the stakes alone.
use moonbeam.Base.{ℕ, ◌≡◌, List, [], ◌∷◌, Bool, true, false, arith, if◌then◌else◌}
use moonbeam.Stake.Types.{Bond, ValidatorSnapshot}
use moonbeam.Stake.Storage.{Config, State}
use moonbeam.Stake.Inflation.{compute_issuance}
use moonbeam.Stake.Payouts.{
  set_at, mint, pay_nominators, pay_snapshot, pay_validator, pay_each, pay_round, pay_stakers,
  note_author,
}

-- The same stakes, candidates and validators.
pub record SameStakes {L : Type 0} (s t : State L) : Type 0 where
  pub round : t.round ≡ s.round
  pub nominators : t.nominators ≡ s.nominators
  pub candidates : t.candidates ≡ s.candidates
  pub validators : t.validators ≡ s.validators
  pub total : t.total ≡ s.total
  pub candidate_pool : t.candidate_pool ≡ s.candidate_pool
  pub exit_queue : t.exit_queue ≡ s.exit_queue
  pub staked : t.staked ≡ s.staked
  pub inflation_config : t.inflation_config ≡ s.inflation_config

SameStakes-refl : {L : Type 0} (s : State L) → SameStakes s s
SameStakes-refl s = ground arith

SameStakes-trans : {L : Type 0} {s t u : State L} → SameStakes s t → SameStakes t u → SameStakes s u
SameStakes-trans p q = ground arith

SameStakes-if :
    {L : Type 0} {s t u : State L} (b : Bool)
    → SameStakes s t
    → SameStakes s u
    → SameStakes s (if b then t else u)
SameStakes-if true p q = p
SameStakes-if false p q = q

module _ {L : Type 0} (cfg : Config L) where
  mint-SameStakes : (amt to : ℕ) (s : State L) → SameStakes s (mint cfg amt to s)
  unfolding mint
  mint-SameStakes amt to s = ground arith

  pay_nominators-SameStakes :
      (total due : ℕ) (bonds : List Bond) (s : State L)
      → SameStakes s (pay_nominators cfg total due bonds s)
  unfolding pay_nominators
  pay_nominators-SameStakes total due [] s = SameStakes-refl s
  pay_nominators-SameStakes total due (b ∷ bonds) s =
      SameStakes-trans (mint-SameStakes _ _ s) (pay_nominators-SameStakes total due bonds _)

  pay_snapshot-SameStakes :
      (val due : ℕ) (state : ValidatorSnapshot) (s : State L)
      → SameStakes s (pay_snapshot cfg val due state s)
  unfolding pay_snapshot
  pay_snapshot-SameStakes val due state s = SameStakes-if _ (mint-SameStakes due val s) (
      SameStakes-trans (mint-SameStakes _ val s)
        (pay_nominators-SameStakes state.total _ state.nominators _))

  pay_validator-SameStakes :
      (round total issuance : ℕ) (e : ℕ × ℕ) (s : State L)
      → SameStakes s (pay_validator cfg round total issuance e s)
  unfolding pay_validator
  pay_validator-SameStakes round total issuance (val, pts) s =
      SameStakes-if _ (SameStakes-refl s)
        (SameStakes-trans (ground arith) (pay_snapshot-SameStakes val _ (s.at_stake round val) _))

  pay_each-SameStakes :
      (round total issuance : ℕ) (entries : List (ℕ × ℕ)) (s : State L)
      → SameStakes s (pay_each cfg round total issuance entries s)
  unfolding pay_each
  pay_each-SameStakes round total issuance [] s = SameStakes-refl s
  pay_each-SameStakes round total issuance (e ∷ entries) s =
      SameStakes-trans (pay_validator-SameStakes round total issuance e s)
        (pay_each-SameStakes round total issuance entries _)

  pay_round-SameStakes : (round : ℕ) (s : State L) → SameStakes s (pay_round cfg round s)
  unfolding pay_round
  pay_round-SameStakes round s =
      SameStakes-trans {t = record s { awarded_pts = set_at round [] s.awarded_pts }} (ground arith)
        (pay_each-SameStakes round (s.points round)
          (compute_issuance cfg s.inflation_config (cfg.total_issuance s.ledger) (s.staked round))
          (cfg.drain_order (s.awarded_pts round)) _)

  -- Paying the stakers changes no candidate, nominator, pool, queue, total or validator, whatever the
  -- currency and the order of the entries.
  pub pay_stakers-SameStakes : (next : ℕ) (s : State L) → SameStakes s (pay_stakers cfg next s)
  unfolding pay_stakers
  pay_stakers-SameStakes next s = SameStakes-if _ (pay_round-SameStakes _ s) (SameStakes-refl s)

pub note_author-SameStakes :
    {L : Type 0} (author : ℕ) (s : State L) → SameStakes s (note_author author s)
unfolding note_author
note_author-SameStakes author s = ground arith
