-- ===== src/Stake/Backing/Candidates.antt =====
-- The dispatchables of pallets/stake/src/lib.rs for candidates keep the reserved balances equal to the
-- stakes.
use moonbeam.Base.{
  ℕ, ◌+◌, ◌-◌, ◌<◌, ◌^◌, ◌≡◌, refl, ◌∙◌, Bool, Option, some, arith, add_u128, add_u128_exact,
  sub_u128_exact,
}
use moonbeam.Base.Map
use moonbeam.Stake.Types.{Range, Validator as Candidate}
use moonbeam.Stake.Validator
use moonbeam.Stake.Validator.Bonds.{sum}
use moonbeam.Stake.Storage.{Config, State}
use moonbeam.Stake.Storage.Ends.{
  Ends, Ends-signed, Ends-ensure, Ends-gets, Ends-then, Ends-event, Ends-read, Ends-reserve,
  Ends-log, Ends-unreserve, Ends-ok_or, Ends-modify, Ends-origin, Ends-or_panic,
}
use moonbeam.Stake.Admin.{set_staking_expectations, set_inflation}
use moonbeam.Stake.CandidateCalls.{
  join_candidates, leave_candidates, go_offline, go_online, candidate_bond_more,
  candidate_bond_less, is_candidate, remove_from_pool, update_active,
}
use moonbeam.Stake.Sides.{nominating}
use moonbeam.Stake.Backing.{Reserves, IsStaked, Stakes}
use moonbeam.Stake.Backing.Changes.{put_candidate-Backed, keep_candidate-Backed}

module _ {L : Type 0} (reserved : ℕ → L → ℕ) (s : State L) (h : IsStaked reserved s) where
  pub set_staking_expectations-Stakes :
      (origin : Bool) (r : Range) → Ends (Stakes reserved) (set_staking_expectations origin r s)
  unfolding set_staking_expectations
  set_staking_expectations-Stakes origin r =
      Ends-origin _ _ _ h λ allowed.
        Ends-ensure _ _ _ _ h λ valid. Ends-gets _ _ _ (Ends-log _ _ _ (Ends-modify _ _ h))

  pub set_inflation-Stakes :
      (cfg : Config L) (origin : Bool) (r : Range)
      → Ends (Stakes reserved) (set_inflation cfg origin r s)
  unfolding set_inflation
  set_inflation-Stakes cfg origin r = Ends-origin _ _ _ h λ allowed. Ends-ensure _ _ _ _ h λ valid.
      Ends-gets _ _ _ (Ends-or_panic _ _ _ (λ e. h) λ config e. Ends-log _ _ _ (Ends-modify _ _ h))

  pub go_offline-Stakes : (origin : Option ℕ) → Ends (Stakes reserved) (go_offline origin s)
  unfolding go_offline remove_from_pool
  go_offline-Stakes origin = Ends-signed _ _ _ h λ acc signed. Ends-read _ _ _ _ h λ v found.
      Ends-ensure _ _ _ _ h λ is_active. Ends-then _ _ _ (
        Ends-then _ _ _ (
          Ends-gets _ _ _ (
            Ends-event _ _
              (h.0, keep_candidate-Backed h.1 acc v (Validator.go_offline v) found refl refl))))

  pub go_online-Stakes : (origin : Option ℕ) → Ends (Stakes reserved) (go_online origin s)
  unfolding go_online
  go_online-Stakes origin = Ends-signed _ _ _ h λ acc signed. Ends-read _ _ _ _ h λ v found.
      Ends-ensure _ _ _ _ h λ not_active. Ends-ensure _ _ _ _ h λ stays. Ends-gets _ _ _ (
        Ends-ensure _ _ _ _ h λ inserted. Ends-then _ _ _ (
          Ends-then _ _ _ (
            Ends-gets _ _ _ (
              Ends-event _ _
                (h.0, keep_candidate-Backed h.1 acc v (Validator.go_online v) found refl refl)))))

  pub leave_candidates-Stakes :
      (cfg : Config L) (origin : Option ℕ) → Ends (Stakes reserved) (leave_candidates cfg origin s)
  unfolding leave_candidates remove_from_pool
  leave_candidates-Stakes cfg origin = Ends-signed _ _ _ h λ acc signed.
      Ends-read _ _ _ _ h λ v found. Ends-ensure _ _ _ _ h λ stays. Ends-gets _ _ _ (
        Ends-gets _ _ _ (
          Ends-ensure _ _ _ _ h λ inserted. Ends-then _ _ _ (
            Ends-then _ _ _ (
              Ends-then _ _ _ (
                Ends-event _ _ (
                  h.0,
                  keep_candidate-Backed h.1 acc v (Validator.leave_candidates _ v) found refl refl,
                ))))))

module _ {L : Type 0} (cfg : Config L) (laws : Reserves cfg) (s : State L)
    (h : IsStaked laws.reserved s) where
  pub join_candidates-Stakes :
      (origin : Option ℕ) (fee bond : ℕ)
      → Ends (Stakes laws.reserved) (join_candidates cfg origin fee bond s)
  unfolding join_candidates is_candidate Validator.new
  join_candidates-Stakes origin fee bond = Ends-signed _ _ _ h λ acc signed. Ends-gets _ _ _ (
      Ends-ensure _ _ _ _ h λ new_candidate. Ends-gets _ _ _ (
        Ends-ensure _ _ _ _ h λ new_nominator. Ends-ensure _ _ _ _ h λ fee_ok.
          Ends-ensure _ _ _ _ h λ bond_ok. Ends-gets _ _ _ (
            Ends-ensure _ _ _ _ h λ inserted. Ends-reserve _ _ _ _ _ h λ l held. Ends-gets _ _ _ (
              Ends-then _ _ _ (
                Ends-then _ _ _ (
                  Ends-then _ _ _ (
                    Ends-event _ _ (
                      h.0,
                      put_candidate-Backed h.1 acc (Validator.new acc fee bond) refl λ a. ground (
                        arith,
                        laws.reserves acc bond s.ledger l held a,
                        h.1.backed acc,
                        new_candidate,
                      ),
                    ))))))))

  bond_more_exact :
      (c more : ℕ) (v : Candidate) (l : L)
      → Map.lookup c s.candidates ≡ some v
      → cfg.reserve c more s.ledger ≡ some l
      → add_u128 v.bond more ≡ v.bond + more
  bond_more_exact c more v l found held =
      let own : laws.reserved c l ≡ laws.reserved c s.ledger + more =
        laws.reserves c more s.ledger l held c ∙ ground arith in
      let stake : laws.reserved c s.ledger ≡ v.bond + sum (nominating s.nominators c) =
        h.1.backed c ∙ ground (arith, found) in
      add_u128_exact v.bond more (omega (arith, own, stake, laws.fits c l))

  pub candidate_bond_more-Stakes :
      (origin : Option ℕ) (more : ℕ)
      → Ends (Stakes laws.reserved) (candidate_bond_more cfg origin more s)
  unfolding candidate_bond_more update_active Validator.bond_more
  candidate_bond_more-Stakes origin more = Ends-signed _ _ _ h λ acc signed.
      Ends-read _ _ _ _ h λ v found. Ends-ensure _ _ _ _ h λ stays.
        Ends-reserve _ _ _ _ _ h λ l held. Ends-then _ _ _ (
          Ends-then _ _ _ (
            Ends-event _ _ (
              h.0,
              put_candidate-Backed h.1 acc (Validator.bond_more more v) (h.1.ids acc v found) λ a.
                  ground (
                    arith,
                    laws.reserves acc more s.ledger l held a,
                    h.1.backed acc,
                    bond_more_exact acc more v l found held,
                  ),
            )))

  bond_less_exact :
      (c less b : ℕ) (v : Candidate)
      → Map.lookup c s.candidates ≡ some v
      → (Validator.bond_less less v).1 ≡ some b
      → ((Validator.bond_less less v).0.id ≡ v.id)
        × ((Validator.bond_less less v).0.bond ≡ v.bond - less)
        × (less < v.bond)
  unfolding Validator.bond_less
  bond_less_exact c less b v found changed =
      let lt : less < v.bond = ground arith in
      let fits : v.bond < 2 ^ 128 =
        (let stake : laws.reserved c s.ledger ≡ v.bond + sum (nominating s.nominators c) =
            h.1.backed c ∙ ground (arith, found) in
          omega (arith, stake, laws.fits c s.ledger)) in
      let less_exact = sub_u128_exact v.bond less (omega (arith, lt)) fits in
      (ground arith, ground (arith, less_exact), lt)

  pub candidate_bond_less-Stakes :
      (origin : Option ℕ) (less : ℕ)
      → Ends (Stakes laws.reserved) (candidate_bond_less cfg origin less s)
  unfolding candidate_bond_less update_active
  candidate_bond_less-Stakes origin less = Ends-signed _ _ _ h λ acc signed.
      Ends-read _ _ _ _ h λ v found. Ends-ensure _ _ _ _ h λ stays.
        Ends-ok_or _ _ _ _ h λ bond bonded. Ends-ensure _ _ _ _ h λ enough.
          Ends-unreserve _ _ _ _ _ (
            Ends-then _ _ _ (
              Ends-then _ _ _ (
                Ends-event _ _ (
                  let (id, less_bond, lt) = bond_less_exact acc less bond v found bonded in
                  (
                    h.0,
                    put_candidate-Backed h.1 acc (Validator.bond_less less v).0
                        (id ∙ h.1.ids acc v found)
                        λ a. ground (
                          arith,
                          laws.unreserves acc less s.ledger a,
                          h.1.backed acc,
                          less_bond,
                          lt,
                        ),
                  )))))
