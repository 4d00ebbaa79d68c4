-- ===== src/Stake/Payouts.antt =====
-- `pay_stakers` of pallets/stake/src/lib.rs, and `note_author`, which awards the points.
pub mod Frame
pub mod Awards
pub mod Reserved
use moonbeam.Base.{
  ℕ, List, [], ◌∷◌, Bool, none, some, ltb, leb, ◌==◌, if◌then◌else◌, add_u32, add_u128, sub_u32,
  sub_u128, is_empty, unwrap_or, ◌++◌,
}
use moonbeam.Base.Map
use moonbeam.Stake.Types.{Bond, ValidatorSnapshot, Event}
use moonbeam.Stake.Storage.{Config, State}
use moonbeam.Stake.Inflation.{compute_issuance}

-- A write to a map, and to a double map, that hold a default elsewhere.
abbrev pub set_at {ℓ} : {V : Type ℓ} → ℕ → V → (ℕ → V) → ℕ → V
set_at k v f j = if k == j then v else f j

abbrev pub set_at2 {ℓ} : {V : Type ℓ} → ℕ → ℕ → V → (ℕ → ℕ → V) → ℕ → ℕ → V
set_at2 k l v f = set_at k (set_at l v (f k)) f

-- `ValidatorSnapshot::default()`
abbrev pub default_snapshot : ValidatorSnapshot
default_snapshot = record { fee = 0; bond = 0; nominators = []; total = 0 }

module _ {L : Type 0} (cfg : Config L) where
  -- The closure `mint`.
  unfoldable pub mint : ℕ → ℕ → State L → State L
  mint amt to s =
      if ltb cfg.minimum_balance amt
      then elim (cfg.deposit_into_existing to amt s.ledger) [
        | none ↦ s
        | some (l, imbalance) ↦ record s {
          ledger = l;
          events = s.events ++ Event.rewarded to imbalance ∷ [];
        }
      ]
      else s

  -- The loop over the nominators of a snapshot.
  unfoldable pub pay_nominators : ℕ → ℕ → List Bond → State L → State L
  pay_nominators total amt_due [] s = s
  pay_nominators total amt_due (b ∷ bonds) s =
      let percent = cfg.from_rational_approximation b.amount total in
      pay_nominators total amt_due bonds (mint (cfg.perbill_mul percent amt_due) b.owner s)

  -- What the nominators share: `amt_due`, less the commission unless it is negligible.
  unfoldable pub shared_due : ℕ → ℕ → ℕ
  shared_due commission amt_due =
      if ltb cfg.minimum_balance commission then sub_u128 amt_due commission else amt_due

  unfoldable pub validator_due : ℕ → ℕ → ℕ → ℕ
  unfolding shared_due
  validator_due val_pct commission amt_due =
      let portion = cfg.perbill_mul val_pct (shared_due commission amt_due) in
      if ltb cfg.minimum_balance commission then add_u128 portion commission else portion

  -- The payment of one snapshot, by its validator and the amount due.
  unfoldable pub pay_snapshot : ℕ → ℕ → ValidatorSnapshot → State L → State L
  unfolding pay_nominators validator_due
  pay_snapshot val amt_due state s =
      if is_empty state.nominators
      then mint amt_due val s
      else (let val_pct = cfg.from_rational_approximation state.bond state.total in
          let commission = cfg.perbill_mul state.fee amt_due in
          pay_nominators state.total (shared_due commission amt_due) state.nominators
            (mint (validator_due val_pct commission amt_due) val s))

  -- The body of the loop over the drained points.
  unfoldable pub pay_validator : ℕ → ℕ → ℕ → ℕ × ℕ → State L → State L
  pay_validator round_to_payout total issuance (val, pts) s =
      let amt_due = cfg.perbill_mul (cfg.from_rational_approximation pts total) issuance in
      if leb amt_due cfg.minimum_balance
      then s
      else pay_snapshot val amt_due (s.at_stake round_to_payout val)
          (record s { at_stake = set_at2 round_to_payout val default_snapshot s.at_stake })

  unfoldable pub pay_each : ℕ → ℕ → ℕ → List (ℕ × ℕ) → State L → State L
  pay_each round_to_payout total issuance [] s = s
  pay_each round_to_payout total issuance (e ∷ entries) s =
      pay_each round_to_payout total issuance entries
        (pay_validator round_to_payout total issuance e s)

  unfoldable pub pay_round : ℕ → State L → State L
  unfolding pay_each
  pay_round round_to_payout s =
      let issuance =
        compute_issuance cfg s.inflation_config (cfg.total_issuance s.ledger)
          (s.staked round_to_payout) in
      pay_each round_to_payout (s.points round_to_payout) issuance
        (cfg.drain_order (s.awarded_pts round_to_payout))
        (record s { awarded_pts = set_at round_to_payout [] s.awarded_pts })

  unfoldable pub pay_stakers : ℕ → State L → State L
  pay_stakers next s =
      if ltb cfg.bond_duration next then pay_round (sub_u32 next cfg.bond_duration) s else s

module _ {L : Type 0} where
  -- `author_inherent::EventHandler for Module<T>`
  unfoldable pub note_author : ℕ → State L → State L
  note_author author s =
      let now = s.round in
      let score = unwrap_or (Map.lookup author (s.awarded_pts now)) 0 in
      record s {
        awarded_pts =
            set_at now (Map.insert author (add_u32 score 20) (s.awarded_pts now)) s.awarded_pts;
        points = set_at now (add_u32 (s.points now) 20) s.points;
      }
