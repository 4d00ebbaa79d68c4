-- ===== src/Stake/Limits/Nominators.antt =====
-- The dispatchables of the nominators in pallets/stake/src/lib.rs and the number of nominations.
use moonbeam.Base.{ℕ, ◌<◌, Option, List, [], ◌∷◌, arith}
use moonbeam.Stake.Storage.{Config, State}
use moonbeam.Stake.Storage.Ends.{
  Ends-signed, Ends-ensure, Ends-gets, Ends-then, Ends-event, Ends-read, Ends-reserve,
  Ends-unreserve, Ends-ok_or, Ends-pure, Ends-modify, Ends-also,
}
use moonbeam.Stake.CandidateCalls.{update_active}
use moonbeam.Stake.NominatorCalls.{
  nominator_joins_validator, nominator_leaves_validator, nominator_revokes_validator,
  join_nominators, leave_each, leave_nominators, nominate_new, switch_nomination, revoke_nomination,
  nominator_bond_more, nominator_bond_less,
}
use moonbeam.Stake.Limits.{IsLimited, Limits}
use moonbeam.Stake.Limits.Lengths.{
  length-new, length-add_nomination-le, length-rm_nomination-le, length-inc_nomination,
  length-dec_nomination, length-swap_nomination-le, insert-IsLimited, remove-IsLimited,
}

-- The calls of the nominators.
module _ {L : Type 0} {max : ℕ} where
  nominator_joins_validator-Limits :
      (cfg : Config L) (s : State L) (nominator amount validator : ℕ)
      → IsLimited max s.nominators
      → Limits max (nominator_joins_validator cfg nominator amount validator s)
  unfolding nominator_joins_validator update_active
  nominator_joins_validator-Limits cfg s nominator amount validator h =
      Ends-read _ _ _ _ h λ v found. Ends-ensure _ _ _ _ h λ inserted. Ends-ensure _ _ _ _ h λ room.
        Ends-reserve _ _ _ _ _ h
          λ l reserved. Ends-then _ _ _ (Ends-then _ _ _ (Ends-then _ _ _ (Ends-event _ _ h)))

  nominator_leaves_validator-Limits :
      (cfg : Config L) (s : State L) (nominator validator : ℕ)
      → IsLimited max s.nominators
      → Limits max (nominator_leaves_validator cfg nominator validator s)
  unfolding nominator_leaves_validator update_active
  nominator_leaves_validator-Limits cfg s nominator validator h = Ends-read _ _ _ _ h λ v found.
      Ends-ok_or _ _ _ _ h λ stake listed.
        Ends-unreserve _ _ _ _ _
          (Ends-then _ _ _ (Ends-then _ _ _ (Ends-then _ _ _ (Ends-event _ _ h))))

  leave_each-Limits :
      (cfg : Config L) (s : State L) (acc : ℕ) (bonds : List _)
      → IsLimited max s.nominators
      → Limits max (leave_each cfg acc bonds s)
  unfolding leave_each
  leave_each-Limits cfg s acc [] h = Ends-pure _ _ h
  leave_each-Limits cfg s acc (b ∷ bonds) h =
      Ends-also _ _ _ (nominator_leaves_validator-Limits cfg s acc b.owner h)
        λ t k. leave_each-Limits cfg t acc bonds k

module _ {L : Type 0} {max : ℕ} (s : State L) (h : IsLimited max s.nominators) where
  pub switch_nomination-Limits :
      (origin : Option ℕ) (old new : ℕ) → Limits max (switch_nomination origin old new s)
  unfolding switch_nomination update_active
  switch_nomination-Limits origin old new = Ends-signed _ _ _ h λ acc signed.
      Ends-ensure _ _ _ _ h λ other. Ends-read _ _ _ _ h λ n nominating.
        Ends-read _ _ _ _ h λ v found. Ends-read _ _ _ _ h λ w found_new.
          Ends-ok_or _ _ _ _ h λ amounts swapped. Ends-then _ _ _ (
            Ends-then _ _ _ (
              Ends-then _ _ _ (
                Ends-then _ _ _ (
                  Ends-then _ _ _ (
                    Ends-event _ _ (
                      insert-IsLimited s.nominators h acc _ (
                        omega
                          (arith, length-swap_nomination-le old new n, h acc n nominating))))))))

  module _ (cfg : Config L) where
    pub leave_nominators-Limits : (origin : Option ℕ) → Limits max (leave_nominators cfg origin s)
    unfolding leave_nominators
    leave_nominators-Limits origin = Ends-signed _ _ _ h λ acc signed.
        Ends-read _ _ _ _ h λ n found.
          Ends-also _ _ _ (leave_each-Limits cfg s acc n.nominations h)
            λ t k. Ends-then _ _ _ (Ends-event _ _ (remove-IsLimited t.nominators k acc))

    pub revoke_nomination-Limits :
        (origin : Option ℕ) (validator : ℕ) → Limits max (revoke_nomination cfg origin validator s)
    unfolding revoke_nomination nominator_revokes_validator
    revoke_nomination-Limits origin validator = Ends-signed _ _ _ h λ acc signed.
        Ends-read _ _ _ _ h λ n found. Ends-ok_or _ _ _ _ h λ remaining removed.
          Ends-ensure _ _ _ _ h λ enough.
            Ends-also _ _ _ (nominator_leaves_validator-Limits cfg s acc validator h) λ t k.
              Ends-modify _ _ (
                insert-IsLimited t.nominators k acc _
                  (omega (arith, length-rm_nomination-le validator n, h acc n found)))

    pub nominator_bond_more-Limits :
        (origin : Option ℕ) (candidate more : ℕ)
        → Limits max (nominator_bond_more cfg origin candidate more s)
    unfolding nominator_bond_more update_active
    nominator_bond_more-Limits origin candidate more = Ends-signed _ _ _ h λ acc signed.
        Ends-read _ _ _ _ h λ n nominating. Ends-read _ _ _ _ h λ v found.
          Ends-ok_or _ _ _ _ h λ amount listed. Ends-reserve _ _ _ _ _ h λ l reserved.
            Ends-then _ _ _ (
              Ends-then _ _ _ (
                Ends-then _ _ _ (
                  Ends-event _ _ (
                    insert-IsLimited s.nominators h acc _ (
                      omega (arith, length-inc_nomination candidate more n, h acc n nominating))))))

    pub nominator_bond_less-Limits :
        (origin : Option ℕ) (candidate less : ℕ)
        → Limits max (nominator_bond_less cfg origin candidate less s)
    unfolding nominator_bond_less update_active
    nominator_bond_less-Limits origin candidate less = Ends-signed _ _ _ h λ acc signed.
        Ends-read _ _ _ _ h λ n nominating. Ends-read _ _ _ _ h λ v found.
          Ends-ok_or _ _ _ _ h λ outcome listed. Ends-ok_or _ _ _ _ h λ remaining decreased.
            Ends-ensure _ _ _ _ h λ enough. Ends-ensure _ _ _ _ h λ enough_in_total.
              Ends-unreserve _ _ _ _ _ (
                Ends-then _ _ _ (
                  Ends-then _ _ _ (
                    Ends-then _ _ _ (
                      Ends-event _ _ (
                        insert-IsLimited s.nominators h acc _ (
                          omega (
                            arith,
                            length-dec_nomination candidate less n,
                            h acc n nominating,
                          )))))))

-- The calls that add a nomination.
module _ {L : Type 0} (cfg : Config L) (s : State L)
    (h : IsLimited cfg.max_validators_per_nominator s.nominators) where
  pub join_nominators-Limits :
      0 < cfg.max_validators_per_nominator
      → (origin : Option ℕ) (validator amount : ℕ)
      → Limits cfg.max_validators_per_nominator (join_nominators cfg origin validator amount s)
  unfolding join_nominators
  join_nominators-Limits positive origin validator amount = Ends-signed _ _ _ h λ acc signed.
      Ends-ensure _ _ _ _ h λ enough. Ends-gets _ _ _ (
        Ends-ensure _ _ _ _ h λ new_nominator. Ends-gets _ _ _ (
          Ends-ensure _ _ _ _ h λ new_candidate.
            Ends-also _ _ _ (nominator_joins_validator-Limits cfg s acc amount validator h) λ t k.
              Ends-then _ _ _ (
                Ends-event _ _ (
                  insert-IsLimited t.nominators k acc _
                    (omega (arith, length-new validator amount))))))

  pub nominate_new-Limits :
      (origin : Option ℕ) (validator amount : ℕ)
      → Limits cfg.max_validators_per_nominator (nominate_new cfg origin validator amount s)
  unfolding nominate_new update_active
  nominate_new-Limits origin validator amount = Ends-signed _ _ _ h λ acc signed.
      Ends-ensure _ _ _ _ h λ enough. Ends-read _ _ _ _ h λ n nominating.
        Ends-ensure _ _ _ _ h λ few. Ends-read _ _ _ _ h λ v found. Ends-ensure _ _ _ _ h λ added.
          Ends-ensure _ _ _ _ h λ room. Ends-ensure _ _ _ _ h λ inserted.
            Ends-reserve _ _ _ _ _ h λ l reserved. Ends-then _ _ _ (
              Ends-then _ _ _ (
                Ends-then _ _ _ (
                  Ends-then _ _ _ (
                    Ends-event _ _ (
                      insert-IsLimited s.nominators h acc _ (
                        ground (
                          arith,
                          length-add_nomination-le (record { owner = validator; amount = amount })
                              n,
                          few,
                        )))))))
