-- ===== src/Stake/Atomic/Candidates.antt =====
-- Errors of the candidates' calls and of `set_staking_expectations`, pallets/stake/src/lib.rs.
use moonbeam.Base.{ℕ, refl, Bool, Option}
use moonbeam.Stake.Types.{Range}
use moonbeam.Stake.Storage.{Config, State}
use moonbeam.Stake.Storage.Ends.{
  Ends, Ends-gets, Ends-then, Ends-log, Ends-modify, Ends-ensure, Ends-origin, Ends-signed,
  Ends-read, Ends-reserve, Ends-unreserve, Ends-ok_or, Ends-event,
}
use moonbeam.Stake.Atomic.{Atomic}
use moonbeam.Stake.Admin.{set_staking_expectations}
use moonbeam.Stake.CandidateCalls.{
  go_offline, go_online, join_candidates, leave_candidates, candidate_bond_more,
  candidate_bond_less,
}

module _ {L : Type 0} (s : State L) where
  pub set_staking_expectations-Atomic :
      (origin : Bool) (r : Range) → Ends (Atomic s) (set_staking_expectations origin r s)
  unfolding set_staking_expectations
  set_staking_expectations-Atomic origin r = Ends-origin _ _ _ refl λ allowed.
      Ends-ensure _ _ _ _ refl λ valid. Ends-gets _ _ _ (Ends-log _ _ _ (Ends-modify _ _ tt))

  pub go_offline-Atomic : (origin : Option ℕ) → Ends (Atomic s) (go_offline origin s)
  unfolding go_offline
  go_offline-Atomic origin = Ends-signed _ _ _ refl λ acc signed. Ends-read _ _ _ _ refl λ v found.
      Ends-ensure _ _ _ _ refl
        λ is_active. Ends-then _ _ _ (Ends-then _ _ _ (Ends-gets _ _ _ (Ends-event _ _ tt)))

  pub go_online-Atomic : (origin : Option ℕ) → Ends (Atomic s) (go_online origin s)
  unfolding go_online
  go_online-Atomic origin = Ends-signed _ _ _ refl λ acc signed. Ends-read _ _ _ _ refl λ v found.
      Ends-ensure _ _ _ _ refl λ not_active. Ends-ensure _ _ _ _ refl λ stays. Ends-gets _ _ _ (
        Ends-ensure _ _ _ _ refl
          λ inserted. Ends-then _ _ _ (Ends-then _ _ _ (Ends-gets _ _ _ (Ends-event _ _ tt))))

module _ {L : Type 0} (cfg : Config L) (s : State L) where
  pub join_candidates-Atomic :
      (origin : Option ℕ) (fee bond : ℕ) → Ends (Atomic s) (join_candidates cfg origin fee bond s)
  unfolding join_candidates
  join_candidates-Atomic origin fee bond = Ends-signed _ _ _ refl λ acc signed. Ends-gets _ _ _ (
      Ends-ensure _ _ _ _ refl λ new_candidate. Ends-gets _ _ _ (
        Ends-ensure _ _ _ _ refl λ new_nominator. Ends-ensure _ _ _ _ refl λ fee_ok.
          Ends-ensure _ _ _ _ refl λ bond_ok. Ends-gets _ _ _ (
            Ends-ensure _ _ _ _ refl λ inserted. Ends-reserve _ _ _ _ _ refl λ l reserved.
              Ends-gets _ _ _
                (Ends-then _ _ _ (Ends-then _ _ _ (Ends-then _ _ _ (Ends-event _ _ tt)))))))

  pub leave_candidates-Atomic :
      (origin : Option ℕ) → Ends (Atomic s) (leave_candidates cfg origin s)
  unfolding leave_candidates
  leave_candidates-Atomic origin = Ends-signed _ _ _ refl λ acc signed.
      Ends-read _ _ _ _ refl λ v found. Ends-ensure _ _ _ _ refl λ stays. Ends-gets _ _ _ (
        Ends-gets _ _ _ (
          Ends-ensure _ _ _ _ refl
            λ inserted. Ends-then _ _ _ (Ends-then _ _ _ (Ends-then _ _ _ (Ends-event _ _ tt)))))

  pub candidate_bond_more-Atomic :
      (origin : Option ℕ) (more : ℕ) → Ends (Atomic s) (candidate_bond_more cfg origin more s)
  unfolding candidate_bond_more
  candidate_bond_more-Atomic origin more = Ends-signed _ _ _ refl λ acc signed.
      Ends-read _ _ _ _ refl λ v found. Ends-ensure _ _ _ _ refl λ stays.
        Ends-reserve _ _ _ _ _ refl
          λ l reserved. Ends-then _ _ _ (Ends-then _ _ _ (Ends-event _ _ tt))

  pub candidate_bond_less-Atomic :
      (origin : Option ℕ) (less : ℕ) → Ends (Atomic s) (candidate_bond_less cfg origin less s)
  unfolding candidate_bond_less
  candidate_bond_less-Atomic origin less = Ends-signed _ _ _ refl λ acc signed.
      Ends-read _ _ _ _ refl λ v found. Ends-ensure _ _ _ _ refl λ stays.
        Ends-ok_or _ _ _ _ refl λ after enough. Ends-ensure _ _ _ _ refl λ bond_ok.
          Ends-unreserve _ _ _ _ _ (Ends-then _ _ _ (Ends-then _ _ _ (Ends-event _ _ tt)))
