-- ===== src/Stake/Locked.antt =====
-- The storage item `Total` of pallets/stake/src/lib.rs, the total that is locked: which calls write it.
use moonbeam.Base.{ℕ, ◌≡◌, refl, Option}
use moonbeam.Stake.Storage.{Config, State, Result}
use moonbeam.Stake.Storage.Ends.{
  Ends, Ends-then, Ends-ensure, Ends-signed, Ends-read, Ends-reserve, Ends-unreserve, Ends-ok_or,
  Ends-event,
}
use moonbeam.Stake.CandidateCalls.{candidate_bond_more, candidate_bond_less}
use moonbeam.Stake.NominatorCalls.{nominator_bond_more, nominator_bond_less}
use moonbeam.Stake.Runs.{Step, step}

-- The state still has the total.
abbrev Locks : {L A : Type 0} → ℕ → Result A → State L → Type 0
Locks total r t = t.total ≡ total

module _ {L : Type 0} (cfg : Config L) (s : State L) where
  candidate_bond_more-Locks :
      (origin : Option ℕ) (more : ℕ) → Ends (Locks s.total) (candidate_bond_more cfg origin more s)
  unfolding candidate_bond_more
  candidate_bond_more-Locks origin more = Ends-signed _ _ _ refl λ acc signed.
      Ends-read _ _ _ _ refl λ v found. Ends-ensure _ _ _ _ refl λ stays.
        Ends-reserve _ _ _ _ _ refl
          λ l reserved. Ends-then _ _ _ (Ends-then _ _ _ (Ends-event _ _ refl))

  candidate_bond_less-Locks :
      (origin : Option ℕ) (less : ℕ) → Ends (Locks s.total) (candidate_bond_less cfg origin less s)
  unfolding candidate_bond_less
  candidate_bond_less-Locks origin less = Ends-signed _ _ _ refl λ acc signed.
      Ends-read _ _ _ _ refl λ v found. Ends-ensure _ _ _ _ refl λ stays.
        Ends-ok_or _ _ _ _ refl λ after enough. Ends-ensure _ _ _ _ refl λ bond_ok.
          Ends-unreserve _ _ _ _ _ (Ends-then _ _ _ (Ends-then _ _ _ (Ends-event _ _ refl)))

  nominator_bond_more-Locks :
      (origin : Option ℕ) (candidate more : ℕ)
      → Ends (Locks s.total) (nominator_bond_more cfg origin candidate more s)
  unfolding nominator_bond_more
  nominator_bond_more-Locks origin candidate more = Ends-signed _ _ _ refl λ acc signed.
      Ends-read _ _ _ _ refl λ n nominating. Ends-read _ _ _ _ refl λ v found.
        Ends-ok_or _ _ _ _ refl λ amount listed.
          Ends-reserve _ _ _ _ _ refl
            λ l reserved. Ends-then _ _ _ (Ends-then _ _ _ (Ends-then _ _ _ (Ends-event _ _ refl)))

  nominator_bond_less-Locks :
      (origin : Option ℕ) (candidate less : ℕ)
      → Ends (Locks s.total) (nominator_bond_less cfg origin candidate less s)
  unfolding nominator_bond_less
  nominator_bond_less-Locks origin candidate less = Ends-signed _ _ _ refl λ acc signed.
      Ends-read _ _ _ _ refl λ n nominating. Ends-read _ _ _ _ refl λ v found.
        Ends-ok_or _ _ _ _ refl λ outcome listed. Ends-ok_or _ _ _ _ refl λ remaining decreased.
          Ends-ensure _ _ _ _ refl λ enough. Ends-ensure _ _ _ _ refl λ enough_in_total.
            Ends-unreserve _ _ _ _ _
              (Ends-then _ _ _ (Ends-then _ _ _ (Ends-then _ _ _ (Ends-event _ _ refl))))

-- The calls that bond more or less.
pub data BondCall : Type 0 where
  of_candidate_more of_candidate_less : Option ℕ → ℕ → BondCall
  of_nominator_more of_nominator_less : Option ℕ → ℕ → ℕ → BondCall

abbrev pub bond_step : {L : Type 0} → BondCall → Step L
bond_step (of_candidate_more origin more) = Step.candidate_bond_more origin more
bond_step (of_candidate_less origin less) = Step.candidate_bond_less origin less
bond_step (of_nominator_more origin candidate more) = Step.nominator_bond_more origin candidate more
bond_step (of_nominator_less origin candidate less) = Step.nominator_bond_less origin candidate less

-- The calls that bond more or less, of candidates and of nominators, do not write `Total`, however they
-- end and whatever they add to the candidate's own total or take off it.
pub step-total :
    {L : Type 0} (cfg : Config L) (call : BondCall) (s : State L)
    → (step cfg (bond_step call) s).1.total ≡ s.total
unfolding step
step-total cfg (of_candidate_more origin more) s =
    (candidate_bond_more-Locks cfg s origin more).holds
step-total cfg (of_candidate_less origin less) s =
    (candidate_bond_less-Locks cfg s origin less).holds
step-total cfg (of_nominator_more origin c more) s =
    (nominator_bond_more-Locks cfg s origin c more).holds
step-total cfg (of_nominator_less origin c less) s =
    (nominator_bond_less-Locks cfg s origin c less).holds
