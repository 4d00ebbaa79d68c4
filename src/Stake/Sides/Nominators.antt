-- ===== src/Stake/Sides/Nominators.antt =====
-- The dispatchables of pallets/stake/src/lib.rs that join a nominator to validators and change its
-- bonds keep the two sides of every nomination in agreement.
use mathlib.Core.Path.{subst}
use moonbeam.Base.{ℕ, ◌≡◌, ap, ◌∙◌, Option, none, some, List, [], arith}
use moonbeam.Base.Map
use moonbeam.Base.Map.{lookup-insert}
use moonbeam.Stake.Types.{Bond, Validator as Candidate, Nominator as Nominations}
use moonbeam.Stake.Validator
use moonbeam.Stake.Nominator
use moonbeam.Stake.Storage.{Config, State, Result, ok, err, panicked}
use moonbeam.Stake.Storage.Ends.{
  Ends, Ends-signed, Ends-ensure, Ends-gets, Ends-then, Ends-event, Ends-read, Ends-reserve,
  Ends-unreserve, Ends-ok_or, Ends-call_then,
}
use moonbeam.Stake.CandidateCalls.{is_candidate, is_nominator, update_active}
use moonbeam.Stake.NominatorCalls.{
  nominator_joins_validator, join_nominators, nominate_new, nominator_bond_more,
  nominator_bond_less,
}
use moonbeam.Stake.Limits.{nominations_in}
use moonbeam.Stake.Sides.{amount_for, Alters, Matched, IsMatched, listing, nominating, with_bonds}
use moonbeam.Stake.Sides.Amounts.{changed}
use moonbeam.Stake.Sides.Methods.{
  insert-Alters, new-Alters, add_nomination-Alters, inc_nomination-Alters, dec_nomination-Alters,
  inc_nominator-Alters, dec_nominator-Alters,
}
use moonbeam.Stake.Sides.Changes.{
  put_bond-Matched, put_nominator-Matched, found-IsSorted, nominating-IsSorted, found-same_amount,
}
use moonbeam.Stake.Sides.Candidates.{Matches}

-- How a call ends that writes the candidate's side first: with the bonds `ys` of the account still to
-- be written, or with both sides as they were.
abbrev pub Half : {L : Type 0} → ℕ → List Bond → Result (Unit {0}) → State L → Type 0
Half acc ys (ok a) t = Matched (listing t.candidates) (with_bonds acc ys (nominating t.nominators))
Half acc ys (err e) t = IsMatched t
Half acc ys panicked t = IsMatched t

module _ {L : Type 0} (cfg : Config L) (s : State L) (h : IsMatched s) where
  nominator_joins_validator-Half :
      (acc amount validator : ℕ)
      → Map.lookup acc s.nominators ≡ none
      → Ends
          (Half acc (Nominator.new validator amount).nominations)
          (nominator_joins_validator cfg acc amount validator s)
  unfolding nominator_joins_validator update_active
  nominator_joins_validator-Half acc amount validator new = Ends-read _ _ _ _ h λ v found.
      Ends-ensure _ _ _ _ h λ inserted. Ends-ensure _ _ _ _ h λ room.
        Ends-reserve _ _ _ _ _ h λ l reserved. Ends-then _ _ _ (
          Ends-then _ _ _ (
            Ends-then _ _ _ (
              Ends-event _ _ (
                put_bond-Matched s.candidates h validator acc v _ [] _ (some amount) found
                  (ap nominations_in new)
                  (insert-Alters v.nominators (found-IsSorted s h validator v found)
                    (record { owner = acc; amount = amount }) inserted)
                  (new-Alters validator amount)))))

  pub join_nominators-Matches :
      (origin : Option ℕ) (validator amount : ℕ)
      → Matches (join_nominators cfg origin validator amount s)
  unfolding join_nominators is_candidate is_nominator
  join_nominators-Matches origin validator amount = Ends-signed _ _ _ h λ acc signed.
      Ends-ensure _ _ _ _ h λ enough. Ends-gets _ _ _ (
        Ends-ensure _ _ _ _ h λ new_nominator. Ends-gets _ _ _ (
          Ends-ensure _ _ _ _ h λ new_candidate.
            Ends-call_then (Half acc (Nominator.new validator amount).nominations) _ _ _
              (nominator_joins_validator-Half acc amount validator (ground arith)) (λ e t q. q)
              (λ t q. q)
              λ a t q. Ends-then _ _ _ (
                Ends-event _ _
                  (put_nominator-Matched t.nominators acc (Nominator.new validator amount) q))))

  pub nominate_new-Matches :
      (origin : Option ℕ) (validator amount : ℕ)
      → Matches (nominate_new cfg origin validator amount s)
  unfolding nominate_new update_active
  nominate_new-Matches origin validator amount = Ends-signed _ _ _ h λ acc signed.
      Ends-ensure _ _ _ _ h λ enough. Ends-read _ _ _ _ h λ n nominates.
        Ends-ensure _ _ _ _ h λ few. Ends-read _ _ _ _ h λ v found. Ends-ensure _ _ _ _ h λ added.
          Ends-ensure _ _ _ _ h λ room. Ends-ensure _ _ _ _ h λ inserted.
            Ends-reserve _ _ _ _ _ h λ l reserved. Ends-then _ _ _ (
              Ends-then _ _ _ (
                Ends-then _ _ _ (
                  Ends-then _ _ _ (
                    Ends-event _ _ (
                      put_nominator-Matched s.nominators acc _ (
                        put_bond-Matched s.candidates h validator acc v _ n.nominations _
                          (some amount) found (ap nominations_in nominates)
                          (insert-Alters v.nominators (found-IsSorted s h validator v found)
                            (record { owner = acc; amount = amount }) inserted)
                          (add_nomination-Alters n (nominating-IsSorted s h acc n nominates)
                            (record { owner = validator; amount = amount }) added)))))))

  -- A change of the amount on both sides.
  changed-Matched :
      (c a : ℕ) (v v' : Candidate) (n n' : Nominations) (f : ℕ → ℕ)
      → Map.lookup c s.candidates ≡ some v
      → Map.lookup a s.nominators ≡ some n
      → Alters a (changed f (amount_for a v.nominators)) v.nominators v'.nominators
      → Alters c (changed f (amount_for c n.nominations)) n.nominations n'.nominations
      → Matched (listing (Map.insert c v' s.candidates)) (nominating (Map.insert a n' s.nominators))
  changed-Matched c a v v' n n' f found nominates p q = put_nominator-Matched s.nominators a n' (
      put_bond-Matched s.candidates h c a v v' n.nominations n'.nominations
        (changed f (amount_for c n.nominations)) found (ap nominations_in nominates)
        (subst (λ x. Alters a (changed f x) v.nominators v'.nominators)
          (found-same_amount s h c a v n found nominates) p)
        q)

  pub nominator_bond_more-Matches :
      (origin : Option ℕ) (candidate more : ℕ)
      → Matches (nominator_bond_more cfg origin candidate more s)
  unfolding nominator_bond_more update_active
  nominator_bond_more-Matches origin candidate more = Ends-signed _ _ _ h λ acc signed.
      Ends-read _ _ _ _ h λ n nominates. Ends-read _ _ _ _ h λ v found.
        Ends-ok_or _ _ _ _ h λ amount increased. Ends-reserve _ _ _ _ _ h λ l reserved.
          Ends-then _ _ _ (
            Ends-then _ _ _ (
              Ends-then _ _ _ (
                Ends-event _ _ (
                  changed-Matched candidate acc v (Validator.inc_nominator acc more v) n
                    (Nominator.inc_nomination candidate more n).0 _ found nominates
                    (inc_nominator-Alters v (found-IsSorted s h candidate v found) acc more)
                    (inc_nomination-Alters n (nominating-IsSorted s h acc n nominates) candidate
                      more amount increased)))))

  pub nominator_bond_less-Matches :
      (origin : Option ℕ) (candidate less : ℕ)
      → Matches (nominator_bond_less cfg origin candidate less s)
  unfolding nominator_bond_less update_active
  nominator_bond_less-Matches origin candidate less = Ends-signed _ _ _ h λ acc signed.
      Ends-read _ _ _ _ h λ n nominates. Ends-read _ _ _ _ h λ v found.
        Ends-ok_or _ _ _ _ h λ outcome listed. Ends-ok_or _ _ _ _ h λ remaining decreased.
          Ends-ensure _ _ _ _ h λ enough. Ends-ensure _ _ _ _ h λ enough_in_total.
            Ends-unreserve _ _ _ _ _ (
              Ends-then _ _ _ (
                Ends-then _ _ _ (
                  Ends-then _ _ _ (
                    Ends-event _ _ (
                      changed-Matched candidate acc v (Validator.dec_nominator acc less v) n
                        (Nominator.dec_nomination candidate less n).0 _ found nominates
                        (dec_nominator-Alters v (found-IsSorted s h candidate v found) acc less)
                        (dec_nomination-Alters n (nominating-IsSorted s h acc n nominates) candidate
                          less remaining (listed ∙ ap some decreased)))))))
