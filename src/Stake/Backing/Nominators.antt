-- ===== src/Stake/Backing/Nominators.antt =====
-- The dispatchables of pallets/stake/src/lib.rs that join a nominator to validators and change its
-- bonds keep the reserved balances equal to the stakes.
use moonbeam.Base.{ℕ, ◌+◌, ◌<◌, ◌^◌, ◌≡◌, refl, ap, ◌∙◌, Option, none, some, arith}
use moonbeam.Base.Map
use moonbeam.Stake.Types.{Validator as Candidate, Nominator as Nominations}
use moonbeam.Stake.Validator
use moonbeam.Stake.Validator.Bonds.{sum}
use moonbeam.Stake.Nominator
use moonbeam.Stake.Storage.{Config, State, Result, ok, err, panicked}
use moonbeam.Stake.Storage.Ends.{
  Ends, Ends-signed, Ends-ensure, Ends-gets, Ends-then, Ends-event, Ends-read, Ends-reserve,
  Ends-unreserve, Ends-ok_or, Ends-call_then,
}
use moonbeam.Stake.CandidateCalls.{is_candidate, is_nominator, update_active}
use moonbeam.Stake.NominatorCalls.{
  nominator_joins_validator, join_nominators, nominate_new, nominator_bond_more,
  nominator_bond_less,
}
use moonbeam.Stake.Limits.{nominations_in}
use moonbeam.Stake.Sides.{nominating, with_bonds}
use moonbeam.Stake.Sides.Changes.{nominating-IsSorted}
use moonbeam.Stake.Sides.Exits.{AllExact, insert-AllExact}
use moonbeam.Stake.Backing.{Reserves, Backed, IsStaked, Stakes, IsBacked, bonded}
use moonbeam.Stake.Backing.Changes.{keep_candidate-Backed, put_bonds-Backed, put_nominator-Backed}
use moonbeam.Stake.Backing.Methods.{
  ExactAt, new-ExactAt, add_nomination-ExactAt, inc_nomination-ExactAt, dec_nomination-ExactAt,
}

inc_nominator-frame :
    (k more : ℕ) (v : Candidate)
    → let v' = Validator.inc_nominator k more v in (v'.id ≡ v.id) × (v'.bond ≡ v.bond)
unfolding Validator.inc_nominator
inc_nominator-frame k more v = ground arith

dec_nominator-frame :
    (k less : ℕ) (v : Candidate)
    → let v' = Validator.dec_nominator k less v in (v'.id ≡ v.id) × (v'.bond ≡ v.bond)
unfolding Validator.dec_nominator
dec_nominator-frame k less v = ground arith

module _ {L : Type 0} (cfg : Config L) (laws : Reserves cfg) (s : State L)
    (h : IsBacked laws.reserved s) where
  staked : IsStaked laws.reserved s
  staked = (h.exact, h.stakes)

  -- The stake with what is reserved for it still fits `u128`.
  held_fits :
      (acc amount : ℕ) (l : L)
      → cfg.reserve acc amount s.ledger ≡ some l
      → bonded s.candidates acc + sum (nominating s.nominators acc) + amount < 2 ^ 128
  held_fits acc amount l held =
      let own : laws.reserved acc l ≡ laws.reserved acc s.ledger + amount =
        laws.reserves acc amount s.ledger l held acc ∙ ground arith in
      omega (arith, own, h.stakes.backed acc, laws.fits acc l)

  -- What is written for a nominator once the amount is reserved.
  reserved-Backed :
      (acc amount : ℕ) (l : L) (n : Nominations)
      → cfg.reserve acc amount s.ledger ≡ some l
      → sum n.nominations ≡ sum (nominating s.nominators acc) + amount
      → Backed s.candidates
          (with_bonds acc n.nominations (nominating s.nominators))
          (λ a. laws.reserved a l)
  reserved-Backed acc amount l n held sums =
      put_bonds-Backed h.stakes acc n.nominations
        λ a. ground (arith, laws.reserves acc amount s.ledger l held a, h.stakes.backed acc, sums)

  -- How `nominator_joins_validator` ends, before the nominator is written.
  abbrev Joined : ℕ → ℕ → ℕ → Result (Unit {0}) → State L → Type 0
  Joined acc validator amount (ok a) t =
      AllExact t.nominators
      × Backed t.candidates
          (with_bonds acc (Nominator.new validator amount).nominations (nominating t.nominators))
          (λ a. laws.reserved a t.ledger)
      × ExactAt amount (Nominator.new validator amount)
  Joined acc validator amount (err e) t = IsStaked laws.reserved t
  Joined acc validator amount panicked t = IsStaked laws.reserved t

  nominator_joins_validator-Joined :
      (acc amount validator : ℕ)
      → 0 < amount
      → Map.lookup acc s.nominators ≡ none
      → Ends (Joined acc validator amount) (nominator_joins_validator cfg acc amount validator s)
  unfolding nominator_joins_validator update_active sum
  nominator_joins_validator-Joined acc amount validator positive new =
      Ends-read _ _ _ _ staked λ v found. Ends-ensure _ _ _ _ staked λ inserted.
        Ends-ensure _ _ _ _ staked λ room. Ends-reserve _ _ _ _ _ staked λ l held. Ends-then _ _ _ (
          Ends-then _ _ _ (
            Ends-then _ _ _ (
              Ends-event _ _ (
                let exact =
                  new-ExactAt validator amount (omega (arith, held_fits acc amount l held))
                    positive in
                (
                  h.exact,
                  keep_candidate-Backed
                      (reserved-Backed acc amount l (Nominator.new validator amount) held
                        (exact.1 ∙ ground (arith, new)))
                      validator v _ found refl refl,
                  exact,
                )))))

  pub join_nominators-Stakes :
      0 < cfg.min_nominator_stk
      → (origin : Option ℕ) (validator amount : ℕ)
      → Ends (Stakes laws.reserved) (join_nominators cfg origin validator amount s)
  unfolding join_nominators is_candidate is_nominator
  join_nominators-Stakes positive origin validator amount = Ends-signed _ _ _ staked λ acc signed.
      Ends-ensure _ _ _ _ staked λ enough. Ends-gets _ _ _ (
        Ends-ensure _ _ _ _ staked λ new_nominator. Ends-gets _ _ _ (
          Ends-ensure _ _ _ _ staked λ new_candidate.
            Ends-call_then (Joined acc validator amount) _ _ _
              (nominator_joins_validator-Joined acc amount validator (ground arith) (ground arith))
              (λ e t q. q) (λ t q. q)
              λ a t q. Ends-then _ _ _ (
                Ends-event _ _ (
                  insert-AllExact acc (Nominator.new validator amount) t.nominators q.0 q.2.0,
                  put_nominator-Backed t.nominators acc (Nominator.new validator amount) q.1,
                ))))

  own_nominations :
      (acc : ℕ) (n : Nominations)
      → Map.lookup acc s.nominators ≡ some n
      → nominating s.nominators acc ≡ n.nominations
  own_nominations acc n found = ap nominations_in found

  -- A nominator of more nominations, and a candidate of the same bond.
  raised-Stakes :
      (acc amount c : ℕ) (l : L) (n n' : Nominations) (v v' : Candidate)
      → cfg.reserve acc amount s.ledger ≡ some l
      → Map.lookup acc s.nominators ≡ some n
      → Map.lookup c s.candidates ≡ some v
      → ExactAt (sum n.nominations + amount) n'
      → (v'.id ≡ v.id) × (v'.bond ≡ v.bond)
      → AllExact (Map.insert acc n' s.nominators)
        × Backed
            (Map.insert c v' s.candidates)
            (nominating (Map.insert acc n' s.nominators))
            (λ a. laws.reserved a l)
  raised-Stakes acc amount c l n n' v v' held nominates found exact same = (
    insert-AllExact acc n' s.nominators h.exact exact.0,
    put_nominator-Backed s.nominators acc n' (
        keep_candidate-Backed
          (reserved-Backed acc amount l n' held (rw (own_nominations acc n nominates) exact.1)) c v
          v' found same.0 same.1),
  )

  pub nominate_new-Stakes :
      0 < cfg.min_nomination
      → (origin : Option ℕ) (validator amount : ℕ)
      → Ends (Stakes laws.reserved) (nominate_new cfg origin validator amount s)
  unfolding nominate_new update_active
  nominate_new-Stakes positive origin validator amount = Ends-signed _ _ _ staked λ acc signed.
      Ends-ensure _ _ _ _ staked λ enough. Ends-read _ _ _ _ staked λ n nominates.
        Ends-ensure _ _ _ _ staked λ few. Ends-read _ _ _ _ staked λ v found.
          Ends-ensure _ _ _ _ staked λ added. Ends-ensure _ _ _ _ staked λ room.
            Ends-ensure _ _ _ _ staked λ inserted. Ends-reserve _ _ _ _ _ staked λ l held.
              Ends-then _ _ _ (
                Ends-then _ _ _ (
                  Ends-then _ _ _ (
                    Ends-then _ _ _ (
                      Ends-event _ _ (
                        raised-Stakes acc amount validator l n _ v _ held nominates found
                          (add_nomination-ExactAt n
                            (nominating-IsSorted s h.matched acc n nominates)
                            (h.exact acc n nominates) validator amount added
                            (omega (
                              arith,
                              held_fits acc amount l held,
                              ap sum (own_nominations acc n nominates),
                            ))
                            (ground arith))
                          (refl, refl))))))

  pub nominator_bond_more-Stakes :
      (origin : Option ℕ) (candidate more : ℕ)
      → Ends (Stakes laws.reserved) (nominator_bond_more cfg origin candidate more s)
  unfolding nominator_bond_more update_active
  nominator_bond_more-Stakes origin candidate more = Ends-signed _ _ _ staked λ acc signed.
      Ends-read _ _ _ _ staked λ n nominates. Ends-read _ _ _ _ staked λ v found.
        Ends-ok_or _ _ _ _ staked λ amount increased. Ends-reserve _ _ _ _ _ staked λ l held.
          Ends-then _ _ _ (
            Ends-then _ _ _ (
              Ends-then _ _ _ (
                Ends-event _ _ (
                  raised-Stakes acc more candidate l n _ v _ held nominates found
                    (inc_nomination-ExactAt n (nominating-IsSorted s h.matched acc n nominates)
                      (h.exact acc n nominates) candidate more amount increased
                      (omega (
                        arith,
                        held_fits acc more l held,
                        ap sum (own_nominations acc n nominates),
                      )))
                    (inc_nominator-frame acc more v)))))

  pub nominator_bond_less-Stakes :
      (origin : Option ℕ) (candidate less : ℕ)
      → Ends (Stakes laws.reserved) (nominator_bond_less cfg origin candidate less s)
  unfolding nominator_bond_less update_active
  nominator_bond_less-Stakes origin candidate less = Ends-signed _ _ _ staked λ acc signed.
      Ends-read _ _ _ _ staked λ n nominates. Ends-read _ _ _ _ staked λ v found.
        Ends-ok_or _ _ _ _ staked λ outcome listed. Ends-ok_or _ _ _ _ staked λ remaining decreased.
          Ends-ensure _ _ _ _ staked λ enough. Ends-ensure _ _ _ _ staked λ enough_in_total.
            Ends-unreserve _ _ _ _ _ (
              Ends-then _ _ _ (
                Ends-then _ _ _ (
                  Ends-then _ _ _ (
                    Ends-event _ _ (
                      let n' = (Nominator.dec_nomination candidate less n).0 in
                      let (exact, enough_there) =
                        dec_nomination-ExactAt n (nominating-IsSorted s h.matched acc n nominates)
                          (h.exact acc n nominates) candidate less remaining
                          (listed ∙ ap some decreased) in
                      let (id, bond) = dec_nominator-frame acc less v in
                      (
                        insert-AllExact acc n' s.nominators h.exact exact.0,
                        put_nominator-Backed s.nominators acc n' (
                            keep_candidate-Backed
                              (put_bonds-Backed h.stakes acc n'.nominations λ a. ground (
                                arith,
                                laws.unreserves acc less s.ledger a,
                                h.stakes.backed acc,
                                exact.1,
                                enough_there,
                                ap sum (own_nominations acc n nominates),
                              ))
                              candidate v _ found id bond),
                      ))))))
