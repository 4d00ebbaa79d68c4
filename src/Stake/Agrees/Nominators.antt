-- ===== src/Stake/Agrees/Nominators.antt =====
-- The dispatchables of the nominators keep the storage consistent.
use moonbeam.Base.{ℕ, ◌≡◌, refl, Option, List, [], ◌∷◌, arith}
use moonbeam.Base.Map.{lookup-insert}
use moonbeam.Stake.Types.{Bond, Validator as Candidate}
use moonbeam.Stake.Validator
use moonbeam.Stake.Storage.{Config, State}
use moonbeam.Stake.Storage.Ends.{
  Ends-signed, Ends-ensure, Ends-gets, Ends-then, Ends-event, Ends-read, Ends-reserve,
  Ends-unreserve, Ends-ok_or, Ends-pure, Ends-modify, Ends-also,
}
use moonbeam.Stake.CandidateCalls.{update_active}
use moonbeam.Stake.NominatorCalls.{
  nominator_joins_validator, nominator_leaves_validator, nominator_revokes_validator,
  join_nominators, leave_each, leave_nominators, nominate_new, receive_nomination,
  switch_nomination, revoke_nomination, nominator_bond_more, nominator_bond_less,
}
use moonbeam.Stake.Agrees.{IsConsistent}
use moonbeam.Stake.Agrees.Candidates.{Keeps}
use moonbeam.Stake.Agrees.Pool.{Agrees-refresh}

inc_nominator-state :
    (n more : ℕ) (v : Candidate) → (Validator.inc_nominator n more v).state ≡ v.state
unfolding Validator.inc_nominator
inc_nominator-state n more v = ground arith

dec_nominator-state :
    (n less : ℕ) (v : Candidate) → (Validator.dec_nominator n less v).state ≡ v.state
unfolding Validator.dec_nominator
dec_nominator-state n less v = ground arith

receive_nomination-fields :
    (acc swapped new_amt : ℕ) (v : Candidate)
    → let (v', total) = receive_nomination acc swapped new_amt v in
      (v'.state ≡ v.state) × (v'.total ≡ total)
unfolding receive_nomination Validator.update_nominator Validator.add_nominator
receive_nomination-fields acc swapped new_amt v = ground arith

module _ {L : Type 0} (cfg : Config L) where
  nominator_joins_validator-Keeps :
      (s : State L) (nominator amount validator : ℕ)
      → IsConsistent s
      → Keeps (nominator_joins_validator cfg nominator amount validator s)
  unfolding nominator_joins_validator update_active
  nominator_joins_validator-Keeps s nominator amount validator h = Ends-read _ _ _ _ h λ v found.
      Ends-ensure _ _ _ _ h λ inserted. Ends-ensure _ _ _ _ h λ room.
        Ends-reserve _ _ _ _ _ h λ l reserved. Ends-then _ _ _ (
          Ends-then _ _ _
            (Ends-then _ _ _ (Ends-event _ _ (Agrees-refresh h validator _ v _ found refl refl))))

  nominator_leaves_validator-Keeps :
      (s : State L) (nominator validator : ℕ)
      → IsConsistent s
      → Keeps (nominator_leaves_validator cfg nominator validator s)
  unfolding nominator_leaves_validator update_active
  nominator_leaves_validator-Keeps s nominator validator h = Ends-read _ _ _ _ h λ v found.
      Ends-ok_or _ _ _ _ h λ stake listed. Ends-unreserve _ _ _ _ _ (
        Ends-then _ _ _ (
          Ends-then _ _ _
            (Ends-then _ _ _ (Ends-event _ _ (Agrees-refresh h validator _ v _ found refl refl)))))

  nominator_revokes_validator-Keeps :
      (s : State L) (acc validator : ℕ)
      → IsConsistent s
      → Keeps (nominator_revokes_validator cfg acc validator s)
  unfolding nominator_revokes_validator
  nominator_revokes_validator-Keeps s acc validator h = Ends-read _ _ _ _ h λ n found.
      Ends-ok_or _ _ _ _ h λ remaining removed. Ends-ensure _ _ _ _ h λ enough.
        Ends-also _ _ _ (nominator_leaves_validator-Keeps s acc validator h)
          λ t k. Ends-modify _ _ k

  pub join_nominators-Keeps :
      (s : State L) (origin : Option ℕ) (validator amount : ℕ)
      → IsConsistent s
      → Keeps (join_nominators cfg origin validator amount s)
  unfolding join_nominators
  join_nominators-Keeps s origin validator amount h = Ends-signed _ _ _ h λ acc signed.
      Ends-ensure _ _ _ _ h λ enough. Ends-gets _ _ _ (
        Ends-ensure _ _ _ _ h λ new_nominator. Ends-gets _ _ _ (
          Ends-ensure _ _ _ _ h λ new_candidate.
            Ends-also _ _ _ (nominator_joins_validator-Keeps s acc amount validator h)
              λ t k. Ends-then _ _ _ (Ends-event _ _ k)))

  leave_each-Keeps :
      (s : State L) (acc : ℕ) (bonds : List Bond)
      → IsConsistent s
      → Keeps (leave_each cfg acc bonds s)
  unfolding leave_each
  leave_each-Keeps s acc [] h = Ends-pure _ _ h
  leave_each-Keeps s acc (b ∷ bonds) h =
      Ends-also _ _ _ (nominator_leaves_validator-Keeps s acc b.owner h)
        λ t k. leave_each-Keeps t acc bonds k

  pub leave_nominators-Keeps :
      (s : State L) (origin : Option ℕ) → IsConsistent s → Keeps (leave_nominators cfg origin s)
  unfolding leave_nominators
  leave_nominators-Keeps s origin h = Ends-signed _ _ _ h λ acc signed.
      Ends-read _ _ _ _ h λ n found.
        Ends-also _ _ _ (leave_each-Keeps s acc n.nominations h)
          λ t k. Ends-then _ _ _ (Ends-event _ _ k)

  pub nominate_new-Keeps :
      (s : State L) (origin : Option ℕ) (validator amount : ℕ)
      → IsConsistent s
      → Keeps (nominate_new cfg origin validator amount s)
  unfolding nominate_new update_active
  nominate_new-Keeps s origin validator amount h = Ends-signed _ _ _ h λ acc signed.
      Ends-ensure _ _ _ _ h λ enough. Ends-read _ _ _ _ h λ n nominating.
        Ends-ensure _ _ _ _ h λ few. Ends-read _ _ _ _ h λ v found. Ends-ensure _ _ _ _ h λ added.
          Ends-ensure _ _ _ _ h λ room. Ends-ensure _ _ _ _ h λ inserted.
            Ends-reserve _ _ _ _ _ h λ l reserved. Ends-then _ _ _ (
              Ends-then _ _ _ (
                Ends-then _ _ _ (
                  Ends-then _ _ _
                    (Ends-event _ _ (Agrees-refresh h validator _ v _ found refl refl)))))

  pub switch_nomination-Keeps :
      (s : State L) (origin : Option ℕ) (old new : ℕ)
      → IsConsistent s
      → Keeps (switch_nomination origin old new s)
  unfolding switch_nomination update_active Validator.rm_nominator
  switch_nomination-Keeps s origin old new h = Ends-signed _ _ _ h λ acc signed.
      Ends-ensure _ _ _ _ h λ other. Ends-read _ _ _ _ h λ n nominating.
        Ends-read _ _ _ _ h λ v found. Ends-read _ _ _ _ h λ w found_new.
          Ends-ok_or _ _ _ _ h λ amounts swapped. Ends-then _ _ _ (
            Ends-then _ _ _ (
              Ends-then _ _ _ (
                Ends-then _ _ _ (
                  Ends-then _ _ _ (
                    Ends-event _ _ (
                      Agrees-refresh
                        (Agrees-refresh h old _ v (Validator.rm_nominator acc v).0 found refl refl)
                        new _ w (receive_nomination acc amounts.0 amounts.1 w).0
                        (ground (
                          arith,
                          lookup-insert old new (Validator.rm_nominator acc v).0 s.candidates,
                        ))
                        (receive_nomination-fields acc amounts.0 amounts.1 w).0
                        (receive_nomination-fields acc amounts.0 amounts.1 w).1))))))

  pub revoke_nomination-Keeps :
      (s : State L) (origin : Option ℕ) (validator : ℕ)
      → IsConsistent s
      → Keeps (revoke_nomination cfg origin validator s)
  unfolding revoke_nomination
  revoke_nomination-Keeps s origin validator h =
      Ends-signed _ _ _ h λ acc signed. nominator_revokes_validator-Keeps s acc validator h

  pub nominator_bond_more-Keeps :
      (s : State L) (origin : Option ℕ) (candidate more : ℕ)
      → IsConsistent s
      → Keeps (nominator_bond_more cfg origin candidate more s)
  unfolding nominator_bond_more update_active
  nominator_bond_more-Keeps s origin candidate more h = Ends-signed _ _ _ h λ acc signed.
      Ends-read _ _ _ _ h λ n nominating. Ends-read _ _ _ _ h λ v found.
        Ends-ok_or _ _ _ _ h λ amount listed. Ends-reserve _ _ _ _ _ h λ l reserved.
          Ends-then _ _ _ (
            Ends-then _ _ _ (
              Ends-then _ _ _ (
                Ends-event _ _
                  (Agrees-refresh h candidate _ v _ found (inc_nominator-state acc more v) refl))))

  pub nominator_bond_less-Keeps :
      (s : State L) (origin : Option ℕ) (candidate less : ℕ)
      → IsConsistent s
      → Keeps (nominator_bond_less cfg origin candidate less s)
  unfolding nominator_bond_less update_active
  nominator_bond_less-Keeps s origin candidate less h = Ends-signed _ _ _ h λ acc signed.
      Ends-read _ _ _ _ h λ n nominating. Ends-read _ _ _ _ h λ v found.
        Ends-ok_or _ _ _ _ h λ outcome listed. Ends-ok_or _ _ _ _ h λ remaining decreased.
          Ends-ensure _ _ _ _ h λ enough. Ends-ensure _ _ _ _ h λ enough_in_total.
            Ends-unreserve _ _ _ _ _ (
              Ends-then _ _ _ (
                Ends-then _ _ _ (
                  Ends-then _ _ _ (
                    Ends-event _ _ (
                      Agrees-refresh h candidate _ v _ found (dec_nominator-state acc less v)
                        refl)))))
