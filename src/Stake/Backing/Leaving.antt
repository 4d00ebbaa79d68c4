-- ===== src/Stake/Backing/Leaving.antt =====
-- The dispatchables of pallets/stake/src/lib.rs by which a nominator leaves validators give back what
-- was reserved for its nominations.
use mathlib.Core.Path.{subst}
use moonbeam.Base.{ℕ, ◌+◌, ◌≡◌, refl, ap, ◌∙◌, Option, none, some, List, [], ◌∷◌, arith}
use moonbeam.Base.Map
use moonbeam.OrderedSet.{IsSorted, find}
use moonbeam.Stake.Types.{Bond, owner_of}
use moonbeam.Stake.Validator.Bonds.{sum}
use moonbeam.Stake.Nominator
use moonbeam.Stake.Nominator.Swap.{last_amount-find}
use moonbeam.Stake.Storage.{Config, State, Result, ok}
use moonbeam.Stake.Storage.Ends.{
  Ends, Ends-signed, Ends-ensure, Ends-then, Ends-event, Ends-read, Ends-unreserve, Ends-ok_or,
  Ends-pure, Ends-modify, Ends-call_then, Ends-some, Ends-read_some, Ends-and,
}
use moonbeam.Stake.CandidateCalls.{update_active}
use moonbeam.Stake.NominatorCalls.{
  nominator_leaves_validator, nominator_revokes_validator, leave_each, leave_nominators,
  revoke_nomination,
}
use moonbeam.Stake.Limits.{nominations_in}
use moonbeam.Stake.Sides.{
  amount_for, bonds_in, Alters, Matched, listing, nominating, with_bonds, Matched-ext,
}
use moonbeam.Stake.Sides.Methods.{rm_nomination-Alters}
use moonbeam.Stake.Sides.Changes.{nominating-IsSorted}
use moonbeam.Stake.Sides.Leaving.{
  Leaves, listed_by, nominator_leaves_validator-Leaves, tail-Alters, removed-amount,
  own_bonds-Matched,
}
use moonbeam.Stake.Sides.Exits.{
  IsExact, AllExact, insert-AllExact, remove-AllExact, reduced-IsExact, rm_nomination-reduced,
}
use moonbeam.Stake.Backing.{Reserves, Backed, Stakes, IsBacked}
use moonbeam.Stake.Backing.Sums.{or_zero, sum-Alters}
use moonbeam.Stake.Backing.Changes.{
  keep_candidate-Backed, put_bonds-Backed, put_nominator-Backed, remove_nominator-Backed,
  Backed-ext,
}

-- What is given back with a bond, and the bonds that are left.
pub given_back :
    (k a : ℕ) (xs ys : List Bond)
    → IsSorted owner_of xs
    → amount_for k xs ≡ some a
    → Alters k none xs ys
    → sum ys + a ≡ sum xs
given_back k a xs ys s e h = omega (arith, sum-Alters k none xs ys s h, ap or_zero e)

module _ {L : Type 0} (cfg : Config L) (laws : Reserves cfg) where
  abbrev Held : ℕ → List Bond → (ℕ → List Bond) → Result (Unit {0}) → State L → Type 0
  Held acc ys g r t = Backed t.candidates (with_bonds acc ys g) (λ a. laws.reserved a t.ledger)

  nominator_leaves_validator-Held :
      (s : State L) (g : ℕ → List Bond) (acc validator a : ℕ) (ys : List Bond)
      → Matched (listing s.candidates) g
      → Backed s.candidates g (λ b. laws.reserved b s.ledger)
      → amount_for validator (g acc) ≡ some a
      → Alters validator none (g acc) ys
      → Ends (Held acc ys g) (nominator_leaves_validator cfg acc validator s)
  unfolding nominator_leaves_validator update_active
  nominator_leaves_validator-Held s g acc validator a ys h k nominates left =
      let (v, found, listed) =
        listed_by acc a (Map.lookup validator s.candidates)
          (h.same_amount validator acc ∙ nominates) in
      let sorted = subst (λ o. IsSorted owner_of (bonds_in o)) found (h.listing_sorted validator) in
      let back = given_back validator a (g acc) ys (h.nominating_sorted acc) nominates left in
      Ends-read_some _ _ _ _ v found (
        Ends-some _ _ _ _ a (last_amount-find acc v.nominators sorted ∙ listed) (
          Ends-unreserve _ _ _ _ _ (
            Ends-then _ _ _ (
              Ends-then _ _ _ (
                Ends-then _ _ _ (
                  Ends-event _ _ (
                    keep_candidate-Backed
                      (put_bonds-Backed k acc ys
                        λ b. ground (arith, laws.unreserves acc a s.ledger b, k.backed acc, back))
                      validator v _ found refl refl)))))))

  Emptied : ℕ → Result (Unit {0}) → State L → Type 0
  Emptied acc r t =
      (r ≡ ok tt)
      × AllExact t.nominators
      × Backed t.candidates (with_bonds acc [] (nominating t.nominators))
          (λ a. laws.reserved a t.ledger)

  leave_each-Emptied :
      (acc : ℕ) (bonds : List Bond) (s : State L)
      → AllExact s.nominators
      → Matched (listing s.candidates) (with_bonds acc bonds (nominating s.nominators))
      → Backed s.candidates
          (with_bonds acc bonds (nominating s.nominators))
          (λ a. laws.reserved a s.ledger)
      → Ends (Emptied acc) (leave_each cfg acc bonds s)
  unfolding leave_each Emptied find
  leave_each-Emptied acc [] s exact h k = Ends-pure _ _ (refl, exact, k)
  leave_each-Emptied acc (b ∷ bonds) s exact h k =
      let g = with_bonds acc (b ∷ bonds) (nominating s.nominators) in
      let own : g acc ≡ b ∷ bonds = ground arith in
      let listed : amount_for b.owner (g acc) ≡ some b.amount = rw own (ground arith) in
      let left : Alters b.owner none (g acc) bonds =
        rw own (tail-Alters b bonds (subst (IsSorted owner_of) own (h.nominating_sorted acc))) in
      Ends-call_then (λ r t. Leaves s acc bonds g r t × Held acc bonds g r t) _ _ _
        (Ends-and _
          (nominator_leaves_validator-Leaves cfg s g acc b.owner b.amount bonds h listed left)
          (nominator_leaves_validator-Held s g acc b.owner b.amount bonds h k listed left))
        (λ e t q. absurd (ground (arith, q.0.0))) (λ t q. absurd (ground (arith, q.0.0)))
        λ a t q.
          leave_each-Emptied acc bonds t (rw q.0.2 exact)
            (Matched-ext q.0.1 (λ c. refl) (λ d. ground (arith, q.0.2)))
            (Backed-ext q.1 (λ d. ground (arith, q.0.2)) (λ d. refl))

  module _ (s : State L) (h : IsBacked laws.reserved s) where
    pub leave_nominators-Stakes :
        (origin : Option ℕ) → Ends (Stakes laws.reserved) (leave_nominators cfg origin s)
    unfolding leave_nominators Emptied
    leave_nominators-Stakes origin =
        Ends-signed _ _ _ (h.exact, h.stakes)
          λ acc signed.
            Ends-read _ _ _ _ (h.exact, h.stakes)
              λ n found.
                Ends-call_then (Emptied acc) _ _ _
                  (leave_each-Emptied acc n.nominations s h.exact
                    (own_bonds-Matched cfg s h.matched acc n found)
                    (Backed-ext h.stakes (λ a. ground (arith, found)) (λ a. refl)))
                  (λ e t q. absurd (ground (arith, q.0))) (λ t q. absurd (ground (arith, q.0)))
                  λ a t q. Ends-then _ _ _ (
                    Ends-event _ _ (
                      remove-AllExact acc t.nominators q.1,
                      remove_nominator-Backed t.nominators acc q.2,
                    ))

    pub revoke_nomination-Stakes :
        (origin : Option ℕ) (validator : ℕ)
        → Ends (Stakes laws.reserved) (revoke_nomination cfg origin validator s)
    unfolding revoke_nomination nominator_revokes_validator
    revoke_nomination-Stakes origin validator =
        Ends-signed _ _ _ (h.exact, h.stakes)
          λ acc signed.
            Ends-read _ _ _ _ (h.exact, h.stakes)
              λ n found.
                Ends-ok_or _ _ _ _ (h.exact, h.stakes)
                  λ remaining removed.
                    Ends-ensure _ _ _ _ (h.exact, h.stakes)
                      λ enough.
                        let sorted = nominating-IsSorted s h.matched acc n found in
                        let (a, nominates) =
                          removed-amount cfg s h.matched validator remaining n sorted removed in
                        let own : nominating s.nominators acc ≡ n.nominations =
                          ap nominations_in found in
                        let g = nominating s.nominators in
                        let n' = (Nominator.rm_nomination validator n).0 in
                        let exact : IsExact n' =
                          rw (ap (λ p. p.0) (rm_nomination-reduced validator a n sorted nominates))
                            (reduced-IsExact validator a n sorted nominates
                              (h.exact acc n found)) in
                        let listed : amount_for validator (g acc) ≡ some a = rw own nominates in
                        let left : Alters validator none (g acc) n'.nominations =
                          rw own (rm_nomination-Alters n sorted validator remaining removed) in
                        Ends-call_then
                          (λ r t. Leaves s acc n'.nominations g r t × Held acc n'.nominations g r t)
                          _ _ _
                          (Ends-and _
                            (nominator_leaves_validator-Leaves cfg s g acc validator a
                              n'.nominations h.matched listed left)
                            (nominator_leaves_validator-Held s g acc validator a n'.nominations
                              h.matched h.stakes listed left))
                          (λ e t q. absurd (ground (arith, q.0.0)))
                          (λ t q. absurd (ground (arith, q.0.0)))
                          λ u t q. Ends-modify _ _ (
                            insert-AllExact acc n' t.nominators (rw q.0.2 h.exact) exact,
                            put_nominator-Backed t.nominators acc n'
                                (Backed-ext q.1 (λ d. ground (arith, q.0.2)) (λ d. refl)),
                          )
