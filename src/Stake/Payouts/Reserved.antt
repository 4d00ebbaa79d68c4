-- ===== src/Stake/Payouts/Reserved.antt =====
-- Paying the stakers deposits rewards and leaves the reserved balances of the currency alone.
use moonbeam.Base.{
  ℕ, ◌≡◌, refl, ◌∙◌, List, [], ◌∷◌, Bool, true, false, ltb, leb, sub_u32, if◌then◌else◌,
  Option-cases, Bool-cases, inl, inr,
}
use moonbeam.Stake.Types.{Bond, ValidatorSnapshot}
use moonbeam.Stake.Storage.{Config, State}
use moonbeam.Stake.Inflation.{compute_issuance}
use moonbeam.Stake.Payouts.{
  set_at2, default_snapshot, mint, pay_nominators, pay_snapshot, pay_validator, pay_each, pay_round,
  pay_stakers,
}
use moonbeam.Stake.Backing.{Reserves}

-- The same reserved balances.
pub record SameReserved {L : Type 0} (reserved : ℕ → L → ℕ) (s t : State L) : Type 0 where
  pub same : (a : ℕ) → reserved a t.ledger ≡ reserved a s.ledger

module _ {L : Type 0} {reserved : ℕ → L → ℕ} where
  SameReserved-trans :
      {s t u : State L}
      → SameReserved reserved s t
      → SameReserved reserved t u
      → SameReserved reserved s u
  SameReserved-trans p q = record { same = λ a. q.same a ∙ p.same a }

  SameReserved-if :
      {s t u : State L} (b : Bool)
      → SameReserved reserved s t
      → SameReserved reserved s u
      → SameReserved reserved s (if b then t else u)
  SameReserved-if true p q = p
  SameReserved-if false p q = q

module _ {L : Type 0} (cfg : Config L) (laws : Reserves cfg) where
  abbrev Same : State L → State L → Type 0
  Same = SameReserved laws.reserved

  mint-Same : (amt to : ℕ) (s : State L) → Same s (mint cfg amt to s)
  unfolding mint
  mint-Same amt to s = elim (Bool-cases (ltb cfg.minimum_balance amt)) [
    | inr e ↦ record { same = λ a. rw e refl }
    | inl e ↦ elim (Option-cases (cfg.deposit_into_existing to amt s.ledger)) [
      | inl f ↦ record { same = λ a. rw (e, f) refl }
      | inr (p, f) ↦ record { same = λ a. rw (e, f) (laws.deposits to amt s.ledger p f a) }
    ]
  ]

  pay_nominators-Same :
      (total due : ℕ) (bonds : List Bond) (s : State L)
      → Same s (pay_nominators cfg total due bonds s)
  unfolding pay_nominators
  pay_nominators-Same total due [] s = record { same = λ a. refl }
  pay_nominators-Same total due (b ∷ bonds) s =
      SameReserved-trans (mint-Same _ _ s) (pay_nominators-Same total due bonds _)

  pay_snapshot-Same :
      (val due : ℕ) (state : ValidatorSnapshot) (s : State L)
      → Same s (pay_snapshot cfg val due state s)
  unfolding pay_snapshot
  pay_snapshot-Same val due state s = SameReserved-if _ (mint-Same due val s) (
      SameReserved-trans (mint-Same _ val s) (pay_nominators-Same state.total _ state.nominators _))

  pay_validator-Same :
      (round total issuance : ℕ) (e : ℕ × ℕ) (s : State L)
      → Same s (pay_validator cfg round total issuance e s)
  unfolding pay_validator
  pay_validator-Same round total issuance (val, pts) s =
      let due = cfg.perbill_mul (cfg.from_rational_approximation pts total) issuance in
      let taken : State L = record s { at_stake = set_at2 round val default_snapshot s.at_stake } in
      SameReserved-if {t = s} {u = pay_snapshot cfg val due (s.at_stake round val) taken}
        (leb due cfg.minimum_balance) (record { same = λ a. refl })
        (record { same = (pay_snapshot-Same val due (s.at_stake round val) taken).same })

  pay_each-Same :
      (round total issuance : ℕ) (entries : List (ℕ × ℕ)) (s : State L)
      → Same s (pay_each cfg round total issuance entries s)
  unfolding pay_each
  pay_each-Same round total issuance [] s = record { same = λ a. refl }
  pay_each-Same round total issuance (e ∷ entries) s =
      SameReserved-trans (pay_validator-Same round total issuance e s)
        (pay_each-Same round total issuance entries _)

  pay_round-Same : (round : ℕ) (s : State L) → Same s (pay_round cfg round s)
  unfolding pay_round
  pay_round-Same round s = record {
    same =
        (pay_each-Same round (s.points round)
          (compute_issuance cfg s.inflation_config (cfg.total_issuance s.ledger) (s.staked round))
          (cfg.drain_order (s.awarded_pts round)) _).same;
  }

  pub pay_stakers-SameReserved :
      (next : ℕ) (s : State L) → SameReserved laws.reserved s (pay_stakers cfg next s)
  unfolding pay_stakers
  pay_stakers-SameReserved next s =
      SameReserved-if {u = s} (ltb cfg.bond_duration next)
        (pay_round-Same (sub_u32 next cfg.bond_duration) s) (record { same = λ a. refl })
