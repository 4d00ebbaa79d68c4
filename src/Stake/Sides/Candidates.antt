-- ===== src/Stake/Sides/Candidates.antt =====
-- The dispatchables of pallets/stake/src/lib.rs for candidates keep the two sides of every nomination
-- in agreement.
use moonbeam.Base.{ℕ, ◌≡◌, sym, ap, Bool, Option, arith}
use moonbeam.Stake.Types.{Range, Validator as Candidate}
use moonbeam.Stake.Validator
use moonbeam.Stake.Storage.{Config, State, Result}
use moonbeam.Stake.Storage.Ends.{
  Ends, Ends-signed, Ends-ensure, Ends-gets, Ends-then, Ends-event, Ends-read, Ends-reserve,
  Ends-log, Ends-unreserve, Ends-ok_or, Ends-modify, Ends-origin, Ends-or_panic,
}
use moonbeam.Stake.Admin.{set_staking_expectations, set_inflation}
use moonbeam.Stake.CandidateCalls.{
  join_candidates, leave_candidates, go_offline, go_online, candidate_bond_more,
  candidate_bond_less, is_candidate, remove_from_pool, update_active,
}
use moonbeam.Stake.Sides.{IsMatched, bonds_in}
use moonbeam.Stake.Sides.Changes.{put_candidate-Matched}

abbrev pub Matches : {L A : Type 0} → Result A × State L → Type 0
Matches = Ends (λ r t. IsMatched t)

bond_less-nominators :
    (less : ℕ) (v : Candidate) → (Validator.bond_less less v).0.nominators ≡ v.nominators
unfolding Validator.bond_less
bond_less-nominators less v = ground arith

module _ {L : Type 0} (s : State L) (h : IsMatched s) where
  pub set_staking_expectations-Matches :
      (origin : Bool) (r : Range) → Matches (set_staking_expectations origin r s)
  unfolding set_staking_expectations
  set_staking_expectations-Matches origin r =
      Ends-origin _ _ _ h λ allowed.
        Ends-ensure _ _ _ _ h λ valid. Ends-gets _ _ _ (Ends-log _ _ _ (Ends-modify _ _ h))

  pub go_offline-Matches : (origin : Option ℕ) → Matches (go_offline origin s)
  unfolding go_offline remove_from_pool
  go_offline-Matches origin = Ends-signed _ _ _ h λ acc signed. Ends-read _ _ _ _ h λ v found.
      Ends-ensure _ _ _ _ h λ is_active. Ends-then _ _ _ (
        Ends-then _ _ _ (
          Ends-gets _ _ _ (
            Ends-event _ _ (
              put_candidate-Matched s.candidates h acc (Validator.go_offline v)
                (sym (ap bonds_in found))))))

  pub go_online-Matches : (origin : Option ℕ) → Matches (go_online origin s)
  unfolding go_online
  go_online-Matches origin = Ends-signed _ _ _ h λ acc signed. Ends-read _ _ _ _ h λ v found.
      Ends-ensure _ _ _ _ h λ not_active. Ends-ensure _ _ _ _ h λ stays. Ends-gets _ _ _ (
        Ends-ensure _ _ _ _ h λ inserted. Ends-then _ _ _ (
          Ends-then _ _ _ (
            Ends-gets _ _ _ (
              Ends-event _ _ (
                put_candidate-Matched s.candidates h acc (Validator.go_online v)
                  (sym (ap bonds_in found)))))))

  module _ (cfg : Config L) where
    pub set_inflation-Matches : (origin : Bool) (r : Range) → Matches (set_inflation cfg origin r s)
    unfolding set_inflation
    set_inflation-Matches origin r = Ends-origin _ _ _ h λ allowed. Ends-ensure _ _ _ _ h λ valid.
        Ends-gets _ _ _
          (Ends-or_panic _ _ _ (λ e. h) λ config e. Ends-log _ _ _ (Ends-modify _ _ h))

    pub join_candidates-Matches :
        (origin : Option ℕ) (fee bond : ℕ) → Matches (join_candidates cfg origin fee bond s)
    unfolding join_candidates is_candidate Validator.new
    join_candidates-Matches origin fee bond = Ends-signed _ _ _ h λ acc signed. Ends-gets _ _ _ (
        Ends-ensure _ _ _ _ h λ new_candidate. Ends-gets _ _ _ (
          Ends-ensure _ _ _ _ h λ new_nominator. Ends-ensure _ _ _ _ h λ fee_ok.
            Ends-ensure _ _ _ _ h λ bond_ok. Ends-gets _ _ _ (
              Ends-ensure _ _ _ _ h λ inserted. Ends-reserve _ _ _ _ _ h λ l reserved.
                Ends-gets _ _ _ (
                  Ends-then _ _ _ (
                    Ends-then _ _ _ (
                      Ends-then _ _ _ (
                        Ends-event _ _ (
                          put_candidate-Matched s.candidates h acc (Validator.new acc fee bond)
                            (ground arith)))))))))

    pub leave_candidates-Matches : (origin : Option ℕ) → Matches (leave_candidates cfg origin s)
    unfolding leave_candidates remove_from_pool
    leave_candidates-Matches origin = Ends-signed _ _ _ h λ acc signed.
        Ends-read _ _ _ _ h λ v found. Ends-ensure _ _ _ _ h λ stays. Ends-gets _ _ _ (
          Ends-gets _ _ _ (
            Ends-ensure _ _ _ _ h λ inserted. Ends-then _ _ _ (
              Ends-then _ _ _ (
                Ends-then _ _ _ (
                  Ends-event _ _ (
                    put_candidate-Matched s.candidates h acc (Validator.leave_candidates _ v)
                      (sym (ap bonds_in found))))))))

    pub candidate_bond_more-Matches :
        (origin : Option ℕ) (more : ℕ) → Matches (candidate_bond_more cfg origin more s)
    unfolding candidate_bond_more update_active Validator.bond_more
    candidate_bond_more-Matches origin more = Ends-signed _ _ _ h λ acc signed.
        Ends-read _ _ _ _ h λ v found. Ends-ensure _ _ _ _ h λ stays.
          Ends-reserve _ _ _ _ _ h λ l reserved. Ends-then _ _ _ (
            Ends-then _ _ _ (
              Ends-event _ _ (
                put_candidate-Matched s.candidates h acc (Validator.bond_more more v)
                  (sym (ap bonds_in found)))))

    pub candidate_bond_less-Matches :
        (origin : Option ℕ) (less : ℕ) → Matches (candidate_bond_less cfg origin less s)
    unfolding candidate_bond_less update_active
    candidate_bond_less-Matches origin less = Ends-signed _ _ _ h λ acc signed.
        Ends-read _ _ _ _ h λ v found. Ends-ensure _ _ _ _ h λ stays.
          Ends-ok_or _ _ _ _ h λ bond bonded. Ends-ensure _ _ _ _ h λ enough.
            Ends-unreserve _ _ _ _ _ (
              Ends-then _ _ _ (
                Ends-then _ _ _ (
                  Ends-event _ _ (
                    put_candidate-Matched s.candidates h acc (Validator.bond_less less v).0
                      (ground (arith, bond_less-nominators less v, found))))))
