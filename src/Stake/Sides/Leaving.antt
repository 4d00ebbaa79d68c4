-- ===== src/Stake/Sides/Leaving.antt =====
-- The dispatchables of pallets/stake/src/lib.rs by which a nominator leaves validators: with both
-- sides of every nomination in agreement they find every bond.
use mathlib.Core.Path.{subst}
use moonbeam.Base.{
  ℕ, ◌≡◌, refl, sym, ap, ◌∙◌, Option, none, some, List, [], ◌∷◌, arith, Option-cases, inl, inr,
}
use moonbeam.Base.Map
use moonbeam.Base.Map.{lookup-remove}
use moonbeam.OrderedSet.{IsSorted, find}
use moonbeam.OrderedSet.Search.{Above-IsSorted, find_below}
use moonbeam.Stake.Types.{Bond, owner_of, Validator as Candidate, Nominator as Nominations}
use moonbeam.Stake.Nominator
use moonbeam.Stake.Nominator.{last_amount}
use moonbeam.Stake.Nominator.Swap.{last_amount-find}
use moonbeam.Stake.Storage.{Config, State, Result, ok, ensure_signed, ◌>>=◌}
use moonbeam.Stake.Storage.Ends.{
  Ends, Ends-signed, Ends-ensure, Ends-then, Ends-event, Ends-read, Ends-unreserve, Ends-ok_or,
  Ends-pure, Ends-modify, Ends-call_then, Ends-some, Ends-read_some,
}
use moonbeam.Stake.CandidateCalls.{update_active}
use moonbeam.Stake.NominatorCalls.{
  nominator_leaves_validator, nominator_revokes_validator, leave_each, leave_nominators,
  revoke_nomination,
}
use moonbeam.Stake.Limits.{nominations_in}
use moonbeam.Stake.Sides.{
  amount_for, bonds_in, Alters, Matched, IsMatched, listing, nominating, with_bonds, Matched-ext,
}
use moonbeam.Stake.Sides.Methods.{from_without-Alters, rm_nomination-Alters}
use moonbeam.Stake.Sides.Changes.{
  put_bond-Matched, put_nominator-Matched, remove_nominator-Matched, nominating-IsSorted,
}
use moonbeam.Stake.Sides.Candidates.{Matches}

-- The call went well, the bonds `ys` are what is left to the account, and no nominator is written yet.
abbrev pub Leaves :
    {L : Type 0} → State L → ℕ → List Bond → (ℕ → List Bond) → Result (Unit {0}) → State L → Type 0
Leaves s acc ys g r t =
    (r ≡ ok tt)
    × Matched (listing t.candidates) (with_bonds acc ys g)
    × (t.nominators ≡ s.nominators)

-- A candidate that lists an amount is there, and its list has the amount.
pub listed_by :
    (acc a : ℕ) (o : Option Candidate)
    → amount_for acc (bonds_in o) ≡ some a
    → (v : Candidate) × (o ≡ some v) × (amount_for acc v.nominators ≡ some a)
unfolding find
listed_by acc a none h = absurd (ground arith)
listed_by acc a (some v) h = (v, refl, h)

-- The first bond of an ordered set goes.
pub tail-Alters :
    (b : Bond) (bonds : List Bond)
    → IsSorted owner_of (b ∷ bonds)
    → Alters b.owner none (b ∷ bonds) bonds
unfolding find
tail-Alters b bonds s = record {
  sorted = Above-IsSorted owner_of b.owner bonds s;
  amounts = λ j. ground (arith, find_below owner_of j b.owner bonds s);
}

module _ {L : Type 0} (cfg : Config L) where
  pub nominator_leaves_validator-Leaves :
      (s : State L) (g : ℕ → List Bond) (acc validator a : ℕ) (ys : List Bond)
      → Matched (listing s.candidates) g
      → amount_for validator (g acc) ≡ some a
      → Alters validator none (g acc) ys
      → Ends (Leaves s acc ys g) (nominator_leaves_validator cfg acc validator s)
  unfolding nominator_leaves_validator update_active
  nominator_leaves_validator-Leaves s g acc validator a ys h nominates left =
      let (v, found, listed) =
        listed_by acc a (Map.lookup validator s.candidates)
          (h.same_amount validator acc ∙ nominates) in
      let sorted = subst (λ o. IsSorted owner_of (bonds_in o)) found (h.listing_sorted validator) in
      Ends-read_some _ _ _ _ v found (
        Ends-some _ _ _ _ a (last_amount-find acc v.nominators sorted ∙ listed) (
          Ends-unreserve _ _ _ _ _ (
            Ends-then _ _ _ (
              Ends-then _ _ _ (
                Ends-then _ _ _ (
                  Ends-event _ _ (
                    refl,
                    put_bond-Matched s.candidates h validator acc v _ (g acc) ys none found refl
                        (from_without-Alters acc v.nominators) left,
                    refl,
                  )))))))

  Emptied : ℕ → Result (Unit {0}) → State L → Type 0
  Emptied acc r t =
      (r ≡ ok tt) × Matched (listing t.candidates) (with_bonds acc [] (nominating t.nominators))

  leave_each-Emptied :
      (acc : ℕ) (bonds : List Bond) (s : State L)
      → Matched (listing s.candidates) (with_bonds acc bonds (nominating s.nominators))
      → Ends (Emptied acc) (leave_each cfg acc bonds s)
  unfolding leave_each Emptied find
  leave_each-Emptied acc [] s h = Ends-pure _ _ (refl, h)
  leave_each-Emptied acc (b ∷ bonds) s h =
      let g = with_bonds acc (b ∷ bonds) (nominating s.nominators) in
      let own : g acc ≡ b ∷ bonds = ground arith in
      Ends-call_then (Leaves s acc bonds g) _ _ _
        (nominator_leaves_validator-Leaves s g acc b.owner b.amount bonds h (rw own (ground arith))
          (rw own (tail-Alters b bonds (subst (IsSorted owner_of) own (h.nominating_sorted acc)))))
        (λ e t q. absurd (ground (arith, q.0))) (λ t q. absurd (ground (arith, q.0)))
        λ a t q.
          leave_each-Emptied acc bonds t (Matched-ext q.1 (λ c. refl) (λ d. ground (arith, q.2)))

  -- What the account's own call to leave comes to.
  abbrev pub Left : ℕ → Result (Unit {0}) → State L → Type 0
  Left acc r t =
      (r ≡ ok tt)
      × IsMatched t
      × (Map.lookup acc t.nominators ≡ none)
      × ((c : ℕ) → amount_for acc (listing t.candidates c) ≡ none)

  module _ (s : State L) (h : IsMatched s) where
    pub own_bonds-Matched :
        (acc : ℕ) (n : Nominations)
        → Map.lookup acc s.nominators ≡ some n
        → Matched (listing s.candidates) (with_bonds acc n.nominations (nominating s.nominators))
    own_bonds-Matched acc n found = Matched-ext h (λ c. refl) (λ a. ground (arith, found))

    leave_nominators-Ends :
        (acc : ℕ) (n : Nominations)
        → Map.lookup acc s.nominators ≡ some n
        → Ends (Left acc) (leave_nominators cfg (some acc) s)
    unfolding leave_nominators ensure_signed ◌>>=◌ Emptied find
    leave_nominators-Ends acc n found = Ends-read_some _ _ _ _ n found (
        Ends-call_then (Emptied acc) _ _ _
          (leave_each-Emptied acc n.nominations s (own_bonds-Matched acc n found))
          (λ e t q. absurd (ground (arith, q.0))) (λ t q. absurd (ground (arith, q.0)))
          λ a t q.
            let gone = remove_nominator-Matched t.nominators acc q.1 in
            let absent : Map.lookup acc (Map.remove acc t.nominators) ≡ none =
              ground (arith, lookup-remove acc acc t.nominators) in
            Ends-then _ _ _ (
              Ends-event _ _ (
                refl,
                gone,
                absent,
                λ c. gone.same_amount c acc ∙ ap (λ o. amount_for c (nominations_in o)) absent,
              )))

    -- With both sides of every nomination in agreement a nominator can leave: leave_nominators
    -- returns ok, the account is no nominator any more and no candidate lists it, and both sides still
    -- agree.
    pub leave_nominators-Left :
        (acc : ℕ) (n : Nominations)
        → Map.lookup acc s.nominators ≡ some n
        → Left acc (leave_nominators cfg (some acc) s).0 (leave_nominators cfg (some acc) s).1
    leave_nominators-Left acc n found = (leave_nominators-Ends acc n found).holds

    pub leave_nominators-Matches : (origin : Option ℕ) → Matches (leave_nominators cfg origin s)
    unfolding leave_nominators Emptied
    leave_nominators-Matches origin = Ends-signed _ _ _ h λ acc signed.
        Ends-read _ _ _ _ h λ n found.
          Ends-call_then (Emptied acc) _ _ _
            (leave_each-Emptied acc n.nominations s (own_bonds-Matched acc n found))
            (λ e t q. absurd (ground (arith, q.0))) (λ t q. absurd (ground (arith, q.0)))
            λ a t q.
              Ends-then _ _ _ (Ends-event _ _ (remove_nominator-Matched t.nominators acc q.1))

    -- A removed nomination was there.
    pub removed-amount :
        (validator r : ℕ) (n : Nominations)
        → IsSorted owner_of n.nominations
        → (Nominator.rm_nomination validator n).1 ≡ some r
        → (a : ℕ) × (amount_for validator n.nominations ≡ some a)
    unfolding Nominator.rm_nomination
    removed-amount validator r n sorted removed =
        elim (Option-cases (last_amount validator none n.nominations)) [
          | inl e ↦ absurd (ground arith)
          | inr (a, e) ↦ (a, sym (last_amount-find validator n.nominations sorted) ∙ e)
        ]

    pub revoke_nomination-Matches :
        (origin : Option ℕ) (validator : ℕ) → Matches (revoke_nomination cfg origin validator s)
    unfolding revoke_nomination nominator_revokes_validator
    revoke_nomination-Matches origin validator = Ends-signed _ _ _ h λ acc signed.
        Ends-read _ _ _ _ h λ n found. Ends-ok_or _ _ _ _ h λ remaining removed.
          Ends-ensure _ _ _ _ h λ enough.
            let sorted = nominating-IsSorted s h acc n found in
            let (a, nominates) = removed-amount validator remaining n sorted removed in
            let own : nominating s.nominators acc ≡ n.nominations = ap nominations_in found in
            let n' = (Nominator.rm_nomination validator n).0 in
            Ends-call_then (Leaves s acc n'.nominations (nominating s.nominators)) _ _ _
              (nominator_leaves_validator-Leaves s (nominating s.nominators) acc validator a
                n'.nominations h (rw own nominates)
                (rw own (rm_nomination-Alters n sorted validator remaining removed)))
              (λ e t q. absurd (ground (arith, q.0))) (λ t q. absurd (ground (arith, q.0)))
              λ u t q. Ends-modify _ _ (
                put_nominator-Matched t.nominators acc n'
                  (Matched-ext q.1 (λ c. refl) (λ d. ground (arith, q.2))))
