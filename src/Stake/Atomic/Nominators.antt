-- ===== src/Stake/Atomic/Nominators.antt =====
-- Errors of the nominators' calls, pallets/stake/src/lib.rs.
use moonbeam.Base.{ℕ, refl, Option}
use moonbeam.Stake.Storage.{Config, State}
use moonbeam.Stake.Storage.Ends.{
  Ends, Ends-gets, Ends-then, Ends-modify, Ends-ensure, Ends-signed, Ends-read, Ends-reserve,
  Ends-unreserve, Ends-ok_or, Ends-event,
}
use moonbeam.Stake.Atomic.{Atomic, Ends-next}
use moonbeam.Stake.NominatorCalls.{
  switch_nomination, nominator_joins_validator, nominator_leaves_validator,
  nominator_revokes_validator, join_nominators, nominate_new, revoke_nomination,
  nominator_bond_more, nominator_bond_less,
}

module _ {L : Type 0} (s : State L) where
  pub switch_nomination-Atomic :
      (origin : Option ℕ) (old new : ℕ) → Ends (Atomic s) (switch_nomination origin old new s)
  unfolding switch_nomination
  switch_nomination-Atomic origin old new = Ends-signed _ _ _ refl λ acc signed.
      Ends-ensure _ _ _ _ refl λ other. Ends-read _ _ _ _ refl λ n nominating.
        Ends-read _ _ _ _ refl λ v found. Ends-read _ _ _ _ refl λ w found_new.
          Ends-ok_or _ _ _ _ refl λ amounts swapped. Ends-then _ _ _ (
            Ends-then _ _ _
              (Ends-then _ _ _ (Ends-then _ _ _ (Ends-then _ _ _ (Ends-event _ _ tt)))))

module _ {L : Type 0} (cfg : Config L) (s : State L) where
  pub nominator_joins_validator-Atomic :
      (nominator amount validator : ℕ)
      → Ends (Atomic s) (nominator_joins_validator cfg nominator amount validator s)
  unfolding nominator_joins_validator
  nominator_joins_validator-Atomic nominator amount validator = Ends-read _ _ _ _ refl λ v found.
      Ends-ensure _ _ _ _ refl λ inserted. Ends-ensure _ _ _ _ refl λ room.
        Ends-reserve _ _ _ _ _ refl
          λ l reserved. Ends-then _ _ _ (Ends-then _ _ _ (Ends-then _ _ _ (Ends-event _ _ tt)))

  pub nominator_leaves_validator-Atomic :
      (nominator validator : ℕ)
      → Ends (Atomic s) (nominator_leaves_validator cfg nominator validator s)
  unfolding nominator_leaves_validator
  nominator_leaves_validator-Atomic nominator validator = Ends-read _ _ _ _ refl λ v found.
      Ends-ok_or _ _ _ _ refl λ stake listed.
        Ends-unreserve _ _ _ _ _
          (Ends-then _ _ _ (Ends-then _ _ _ (Ends-then _ _ _ (Ends-event _ _ tt))))

  pub nominator_revokes_validator-Atomic :
      (acc validator : ℕ) → Ends (Atomic s) (nominator_revokes_validator cfg acc validator s)
  unfolding nominator_revokes_validator
  nominator_revokes_validator-Atomic acc validator = Ends-read _ _ _ _ refl λ n found.
      Ends-ok_or _ _ _ _ refl λ remaining removed. Ends-ensure _ _ _ _ refl λ enough.
        Ends-next s _ _ (nominator_leaves_validator-Atomic acc validator) λ t. Ends-modify _ _ tt

  pub join_nominators-Atomic :
      (origin : Option ℕ) (validator amount : ℕ)
      → Ends (Atomic s) (join_nominators cfg origin validator amount s)
  unfolding join_nominators
  join_nominators-Atomic origin validator amount = Ends-signed _ _ _ refl λ acc signed.
      Ends-ensure _ _ _ _ refl λ enough. Ends-gets _ _ _ (
        Ends-ensure _ _ _ _ refl λ new_nominator. Ends-gets _ _ _ (
          Ends-ensure _ _ _ _ refl λ new_candidate.
            Ends-next s _ _ (nominator_joins_validator-Atomic acc amount validator)
              λ t. Ends-then _ _ _ (Ends-event _ _ tt)))

  pub nominate_new-Atomic :
      (origin : Option ℕ) (validator amount : ℕ)
      → Ends (Atomic s) (nominate_new cfg origin validator amount s)
  unfolding nominate_new
  nominate_new-Atomic origin validator amount = Ends-signed _ _ _ refl λ acc signed.
      Ends-ensure _ _ _ _ refl λ enough. Ends-read _ _ _ _ refl λ n nominating.
        Ends-ensure _ _ _ _ refl λ few. Ends-read _ _ _ _ refl λ v found.
          Ends-ensure _ _ _ _ refl λ added. Ends-ensure _ _ _ _ refl λ room.
            Ends-ensure _ _ _ _ refl λ inserted. Ends-reserve _ _ _ _ _ refl λ l reserved.
              Ends-then _ _ _
                (Ends-then _ _ _ (Ends-then _ _ _ (Ends-then _ _ _ (Ends-event _ _ tt))))

  pub revoke_nomination-Atomic :
      (origin : Option ℕ) (validator : ℕ)
      → Ends (Atomic s) (revoke_nomination cfg origin validator s)
  unfolding revoke_nomination
  revoke_nomination-Atomic origin validator =
      Ends-signed _ _ _ refl λ acc signed. nominator_revokes_validator-Atomic acc validator

  pub nominator_bond_more-Atomic :
      (origin : Option ℕ) (candidate more : ℕ)
      → Ends (Atomic s) (nominator_bond_more cfg origin candidate more s)
  unfolding nominator_bond_more
  nominator_bond_more-Atomic origin candidate more = Ends-signed _ _ _ refl λ acc signed.
      Ends-read _ _ _ _ refl λ n nominating. Ends-read _ _ _ _ refl λ v found.
        Ends-ok_or _ _ _ _ refl λ amount listed.
          Ends-reserve _ _ _ _ _ refl
            λ l reserved. Ends-then _ _ _ (Ends-then _ _ _ (Ends-then _ _ _ (Ends-event _ _ tt)))

  pub nominator_bond_less-Atomic :
      (origin : Option ℕ) (candidate less : ℕ)
      → Ends (Atomic s) (nominator_bond_less cfg origin candidate less s)
  unfolding nominator_bond_less
  nominator_bond_less-Atomic origin candidate less = Ends-signed _ _ _ refl λ acc signed.
      Ends-read _ _ _ _ refl λ n nominating. Ends-read _ _ _ _ refl λ v found.
        Ends-ok_or _ _ _ _ refl λ outcome listed. Ends-ok_or _ _ _ _ refl λ remaining decreased.
          Ends-ensure _ _ _ _ refl λ enough. Ends-ensure _ _ _ _ refl λ enough_in_total.
            Ends-unreserve _ _ _ _ _
              (Ends-then _ _ _ (Ends-then _ _ _ (Ends-then _ _ _ (Ends-event _ _ tt))))
