-- ===== src/Stake/Limits/Candidates.antt =====
-- The dispatchables of pallets/stake/src/lib.rs that write no nominator keep the limit.
use moonbeam.Base.{ℕ, Bool, Option}
use moonbeam.Stake.Types.{Range}
use moonbeam.Stake.Storage.{Config, State}
use moonbeam.Stake.Storage.Ends.{
  Ends-signed, Ends-ensure, Ends-gets, Ends-then, Ends-event, Ends-read, Ends-reserve, Ends-log,
  Ends-unreserve, Ends-ok_or, Ends-modify, Ends-origin, Ends-or_panic,
}
use moonbeam.Stake.Admin.{set_staking_expectations, set_inflation}
use moonbeam.Stake.CandidateCalls.{
  join_candidates, leave_candidates, go_offline, go_online, candidate_bond_more,
  candidate_bond_less, remove_from_pool, update_active,
}
use moonbeam.Stake.Limits.{IsLimited, Limits}

module _ {L : Type 0} {max : ℕ} (s : State L) (h : IsLimited max s.nominators) where
  pub set_staking_expectations-Limits :
      (origin : Bool) (r : Range) → Limits max (set_staking_expectations origin r s)
  unfolding set_staking_expectations
  set_staking_expectations-Limits origin r =
      Ends-origin _ _ _ h λ allowed.
        Ends-ensure _ _ _ _ h λ valid. Ends-gets _ _ _ (Ends-log _ _ _ (Ends-modify _ _ h))

  pub go_offline-Limits : (origin : Option ℕ) → Limits max (go_offline origin s)
  unfolding go_offline remove_from_pool
  go_offline-Limits origin = Ends-signed _ _ _ h λ acc signed. Ends-read _ _ _ _ h λ v found.
      Ends-ensure _ _ _ _ h
        λ is_active. Ends-then _ _ _ (Ends-then _ _ _ (Ends-gets _ _ _ (Ends-event _ _ h)))

  pub go_online-Limits : (origin : Option ℕ) → Limits max (go_online origin s)
  unfolding go_online
  go_online-Limits origin = Ends-signed _ _ _ h λ acc signed. Ends-read _ _ _ _ h λ v found.
      Ends-ensure _ _ _ _ h λ not_active. Ends-ensure _ _ _ _ h λ stays. Ends-gets _ _ _ (
        Ends-ensure _ _ _ _ h
          λ inserted. Ends-then _ _ _ (Ends-then _ _ _ (Ends-gets _ _ _ (Ends-event _ _ h))))

  module _ (cfg : Config L) where
    pub set_inflation-Limits :
        (origin : Bool) (r : Range) → Limits max (set_inflation cfg origin r s)
    unfolding set_inflation
    set_inflation-Limits origin r = Ends-origin _ _ _ h λ allowed. Ends-ensure _ _ _ _ h λ valid.
        Ends-gets _ _ _
          (Ends-or_panic _ _ _ (λ e. h) λ config e. Ends-log _ _ _ (Ends-modify _ _ h))

    pub join_candidates-Limits :
        (origin : Option ℕ) (fee bond : ℕ) → Limits max (join_candidates cfg origin fee bond s)
    unfolding join_candidates
    join_candidates-Limits origin fee bond = Ends-signed _ _ _ h λ acc signed. Ends-gets _ _ _ (
        Ends-ensure _ _ _ _ h λ new_candidate. Ends-gets _ _ _ (
          Ends-ensure _ _ _ _ h λ new_nominator. Ends-ensure _ _ _ _ h λ fee_ok.
            Ends-ensure _ _ _ _ h λ bond_ok. Ends-gets _ _ _ (
              Ends-ensure _ _ _ _ h λ inserted. Ends-reserve _ _ _ _ _ h λ l reserved.
                Ends-gets _ _ _
                  (Ends-then _ _ _ (Ends-then _ _ _ (Ends-then _ _ _ (Ends-event _ _ h)))))))

    pub leave_candidates-Limits : (origin : Option ℕ) → Limits max (leave_candidates cfg origin s)
    unfolding leave_candidates remove_from_pool
    leave_candidates-Limits origin = Ends-signed _ _ _ h λ acc signed.
        Ends-read _ _ _ _ h λ v found. Ends-ensure _ _ _ _ h λ stays. Ends-gets _ _ _ (
          Ends-gets _ _ _ (
            Ends-ensure _ _ _ _ h
              λ inserted. Ends-then _ _ _ (Ends-then _ _ _ (Ends-then _ _ _ (Ends-event _ _ h)))))

    pub candidate_bond_more-Limits :
        (origin : Option ℕ) (more : ℕ) → Limits max (candidate_bond_more cfg origin more s)
    unfolding candidate_bond_more update_active
    candidate_bond_more-Limits origin more = Ends-signed _ _ _ h λ acc signed.
        Ends-read _ _ _ _ h λ v found. Ends-ensure _ _ _ _ h λ stays.
          Ends-reserve _ _ _ _ _ h
            λ l reserved. Ends-then _ _ _ (Ends-then _ _ _ (Ends-event _ _ h))

    pub candidate_bond_less-Limits :
        (origin : Option ℕ) (less : ℕ) → Limits max (candidate_bond_less cfg origin less s)
    unfolding candidate_bond_less update_active
    candidate_bond_less-Limits origin less = Ends-signed _ _ _ h λ acc signed.
        Ends-read _ _ _ _ h λ v found. Ends-ensure _ _ _ _ h λ stays.
          Ends-ok_or _ _ _ _ h λ bond bonded. Ends-ensure _ _ _ _ h λ enough.
            Ends-unreserve _ _ _ _ _ (Ends-then _ _ _ (Ends-then _ _ _ (Ends-event _ _ h)))
