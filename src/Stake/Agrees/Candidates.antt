-- ===== src/Stake/Agrees/Candidates.antt =====
-- The dispatchables of the candidates keep the storage consistent.
use moonbeam.Base.{ℕ, ◌≡◌, refl, Option, arith}
use moonbeam.Stake.Types.{Validator as Candidate}
use moonbeam.Stake.Validator
use moonbeam.Stake.Storage.{Config, State, Result}
use moonbeam.Stake.Storage.Ends.{
  Ends, Ends-signed, Ends-ensure, Ends-gets, Ends-then, Ends-event, Ends-read, Ends-reserve,
  Ends-unreserve, Ends-ok_or,
}
use moonbeam.Stake.CandidateCalls.{
  join_candidates, leave_candidates, go_offline, go_online, candidate_bond_more,
  candidate_bond_less, is_candidate, remove_from_pool, update_active,
}
use moonbeam.Stake.Agrees.{IsConsistent}
use moonbeam.Stake.Agrees.Pool.{Agrees-refresh, Agrees-enter, Agrees-idle, Agrees-leave}

abbrev pub Keeps : {L A : Type 0} → Result A × State L → Type 0
Keeps = Ends (λ r s. IsConsistent s)

module _ {L : Type 0} (s : State L) (h : IsConsistent s) where
  pub go_offline-Keeps : (origin : Option ℕ) → Keeps (go_offline origin s)
  unfolding go_offline remove_from_pool
  go_offline-Keeps origin = Ends-signed _ _ _ h λ acc signed. Ends-read _ _ _ _ h λ v found.
      Ends-ensure _ _ _ _ h λ is_active. Ends-then _ _ _ (
        Ends-then _ _ _ (
          Ends-gets _ _ _
            (Ends-event _ _ (Agrees-idle h acc (Validator.go_offline v) refl (ground arith)))))

  pub go_online-Keeps : (origin : Option ℕ) → Keeps (go_online origin s)
  unfolding go_online
  go_online-Keeps origin = Ends-signed _ _ _ h λ acc signed. Ends-read _ _ _ _ h λ v found.
      Ends-ensure _ _ _ _ h λ not_active. Ends-ensure _ _ _ _ h λ stays. Ends-gets _ _ _ (
        Ends-ensure _ _ _ _ h λ inserted. Ends-then _ _ _ (
          Ends-then _ _ _ (
            Ends-gets _ _ _ (
              Ends-event _ _
                (Agrees-enter h acc (Validator.go_online v) refl (ground arith) (ground arith))))))

module _ {L : Type 0} (cfg : Config L) (s : State L) (h : IsConsistent s) where
  pub join_candidates-Keeps :
      (origin : Option ℕ) (fee bond : ℕ) → Keeps (join_candidates cfg origin fee bond s)
  unfolding join_candidates is_candidate Validator.new
  join_candidates-Keeps origin fee bond = Ends-signed _ _ _ h λ acc signed. Ends-gets _ _ _ (
      Ends-ensure _ _ _ _ h λ new_candidate. Ends-gets _ _ _ (
        Ends-ensure _ _ _ _ h λ new_nominator. Ends-ensure _ _ _ _ h λ fee_ok.
          Ends-ensure _ _ _ _ h λ bond_ok. Ends-gets _ _ _ (
            Ends-ensure _ _ _ _ h λ inserted. Ends-reserve _ _ _ _ _ h λ l reserved.
              Ends-gets _ _ _ (
                Ends-then _ _ _ (
                  Ends-then _ _ _ (
                    Ends-then _ _ _ (
                      Ends-event _ _ (
                        Agrees-enter h acc (Validator.new acc fee bond) refl (ground arith)
                          (ground arith)))))))))

  pub leave_candidates-Keeps : (origin : Option ℕ) → Keeps (leave_candidates cfg origin s)
  unfolding leave_candidates remove_from_pool
  leave_candidates-Keeps origin = Ends-signed _ _ _ h λ acc signed. Ends-read _ _ _ _ h λ v found.
      Ends-ensure _ _ _ _ h λ stays. Ends-gets _ _ _ (
        Ends-gets _ _ _ (
          Ends-ensure _ _ _ _ h λ inserted. Ends-then _ _ _ (
            Ends-then _ _ _ (
              Ends-then _ _ _ (
                Ends-event _ _
                  (Agrees-leave h acc _ (Validator.leave_candidates _ v) refl (ground arith)))))))

  bond_less-state : (less : ℕ) (v : Candidate) → (Validator.bond_less less v).0.state ≡ v.state
  unfolding Validator.bond_less
  bond_less-state less v = ground arith

  pub candidate_bond_more-Keeps :
      (origin : Option ℕ) (more : ℕ) → Keeps (candidate_bond_more cfg origin more s)
  unfolding candidate_bond_more update_active Validator.bond_more
  candidate_bond_more-Keeps origin more = Ends-signed _ _ _ h λ acc signed.
      Ends-read _ _ _ _ h λ v found. Ends-ensure _ _ _ _ h λ stays.
        Ends-reserve _ _ _ _ _ h λ l reserved. Ends-then _ _ _ (
          Ends-then _ _ _ (
            Ends-event _ _ (Agrees-refresh h acc _ v (Validator.bond_more more v) found refl refl)))

  pub candidate_bond_less-Keeps :
      (origin : Option ℕ) (less : ℕ) → Keeps (candidate_bond_less cfg origin less s)
  unfolding candidate_bond_less update_active
  candidate_bond_less-Keeps origin less = Ends-signed _ _ _ h λ acc signed.
      Ends-read _ _ _ _ h λ v found. Ends-ensure _ _ _ _ h λ stays.
        Ends-ok_or _ _ _ _ h λ bond bonded. Ends-ensure _ _ _ _ h λ enough.
          Ends-unreserve _ _ _ _ _ (
            Ends-then _ _ _ (
              Ends-then _ _ _ (
                Ends-event _ _ (
                  Agrees-refresh h acc _ v (Validator.bond_less less v).0 found
                    (bond_less-state less v) refl))))
