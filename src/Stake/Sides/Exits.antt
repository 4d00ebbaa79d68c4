-- ===== src/Stake/Sides/Exits.antt =====
-- The delayed exits of pallets/stake/src/lib.rs keep the two sides of every nomination in agreement,
-- where the total of every nominator is the exact sum of amounts above zero.
use mathlib.Core.Path.{subst}
use moonbeam.Base.{
  ℕ, ◌-◌, ◌<◌, ◌^◌, ◌≡◌, refl, sym, ap, ◌∙◌, none, some, List, [], ◌∷◌, arith, ◌==◌, All, sub_u128,
  sub_u128_exact, Option-cases, Bool-cases, inl, inr,
}
use moonbeam.Base.Map
use moonbeam.Base.Map.{Map, lookup-insert, lookup-remove}
use moonbeam.OrderedSet
use moonbeam.OrderedSet.{IsSorted, find}
use moonbeam.OrderedSet.From.{from_sorted}
use moonbeam.Stake.Types.{Bond, owner_of, Nominator as Nominations}
use moonbeam.Stake.Validator.{without}
use moonbeam.Stake.Validator.Bonds.{sum, amount_of, sum-without, without-IsSorted}
use moonbeam.Stake.Nominator
use moonbeam.Stake.Nominator.{last_amount}
use moonbeam.Stake.Nominator.Swap.{last_amount-find}
use moonbeam.Stake.Storage.{State}
use moonbeam.Stake.Rounds.{drop_nomination}
use moonbeam.Stake.Limits.{nominations_in}
use moonbeam.Stake.Sides.{amount_for, Alters, nominating, with_bonds}
use moonbeam.Stake.Sides.Methods.{from_without-Alters}

abbrev pub IsPositive : Bond → Type 0
IsPositive b = 0 < b.amount

-- The total is the sum of the amounts, which are above zero, and fits `u128`.
pub record IsExact (n : Nominations) : Type 0 where
  pub exact : n.total ≡ sum n.nominations
  pub fits : n.total < 2 ^ 128
  pub positive : All IsPositive n.nominations

abbrev pub AllExact : Map Nominations → Type 0
AllExact m = (a : ℕ) (n : Nominations) → Map.lookup a m ≡ some n → IsExact n

sum_empty : (xs : List Bond) → All IsPositive xs → sum xs ≡ 0 → xs ≡ []
unfolding sum
sum_empty [] p e = refl
sum_empty (x ∷ xs) p e = absurd (omega (arith, p.0))

without-IsPositive : (k : ℕ) (xs : List Bond) → All IsPositive xs → All IsPositive (without k xs)
unfolding without
without-IsPositive k [] p = tt
without-IsPositive k (x ∷ xs) p = ground (arith, without-IsPositive k xs p.1)

amount_for-amount_of : (k a : ℕ) (xs : List Bond) → amount_for k xs ≡ some a → amount_of k xs ≡ a
unfolding find amount_of
amount_for-amount_of k a [] h = absurd (ground arith)
amount_for-amount_of k a (x ∷ xs) h = ground (arith, amount_for-amount_of k a xs)

-- A nominator without one nomination.
abbrev pub reduced : ℕ → ℕ → Nominations → Nominations
reduced validator a n = record {
  nominations = OrderedSet.from owner_of (without validator n.nominations);
  total = sub_u128 n.total a;
}

module _ (validator a : ℕ) (n : Nominations) (sorted : IsSorted owner_of n.nominations)
    (nominates : amount_for validator n.nominations ≡ some a) where
  pub reduced-IsExact : IsExact n → IsExact (reduced validator a n)
  reduced-IsExact h =
      let sums = sum-without validator n.nominations sorted in
      let own = amount_for-amount_of validator a n.nominations nominates in
      let less : sub_u128 n.total a ≡ n.total - a =
        sub_u128_exact n.total a (omega (arith, sums, own, h.exact)) h.fits in
      let kept =
        from_sorted owner_of (without validator n.nominations)
          (without-IsSorted validator n.nominations sorted) in
      record {
        exact = rw kept (omega (arith, less, sums, own, h.exact));
        fits = omega (arith, less, h.fits);
        positive = rw kept (without-IsPositive validator n.nominations h.positive);
      }

  pub rm_nomination-reduced :
      Nominator.rm_nomination validator n ≡ (reduced validator a n, some (sub_u128 n.total a))
  unfolding Nominator.rm_nomination
  rm_nomination-reduced =
      rw (Nominator.rm_nomination, last_amount-find validator n.nominations sorted ∙ nominates) refl

pub insert-AllExact :
    (a : ℕ) (n : Nominations) (m : Map Nominations)
    → AllExact m
    → IsExact n
    → AllExact (Map.insert a n m)
insert-AllExact a n m h e b v found = ground (arith, lookup-insert a b n m, h b v, e)

pub remove-AllExact : (a : ℕ) (m : Map Nominations) → AllExact m → AllExact (Map.remove a m)
remove-AllExact a m h b v found = ground (arith, lookup-remove a b m, h b v)

-- What the removal of a nomination leaves behind, from the state before it.
pub record Dropped {L : Type 0} (validator owner : ℕ) (s t : State L) : Type 0 where
  pub ys : List Bond
  pub altered : Alters validator none (nominating s.nominators owner) ys
  pub nominators :
      (b : ℕ) → nominating t.nominators b ≡ with_bonds owner ys (nominating s.nominators) b
  pub exact : AllExact t.nominators
  pub candidates : t.candidates ≡ s.candidates
  pub ledger : t.ledger ≡ s.ledger

module _ {L : Type 0} where
  put-Dropped :
      (validator owner : ℕ) (s : State L) (n : Nominations)
      → AllExact s.nominators
      → IsExact n
      → Alters validator none (nominating s.nominators owner) n.nominations
      → Dropped validator owner s (record s { nominators = Map.insert owner n s.nominators })
  put-Dropped validator owner s n h e p = record {
    ys = n.nominations;
    altered = p;
    nominators = λ b. ground (arith, lookup-insert owner b n s.nominators);
    exact = insert-AllExact owner n s.nominators h e;
    candidates = refl;
    ledger = refl;
  }

  remove-Dropped :
      (validator owner : ℕ) (s : State L)
      → AllExact s.nominators
      → Alters validator none (nominating s.nominators owner) []
      → Dropped validator owner s (record s { nominators = Map.remove owner s.nominators })
  remove-Dropped validator owner s h p = record {
    ys = [];
    altered = p;
    nominators = λ b. ground (arith, lookup-remove owner b s.nominators);
    exact = remove-AllExact owner s.nominators h;
    candidates = refl;
    ledger = refl;
  }

  pub drop_nomination-Dropped :
      (validator owner a : ℕ) (s : State L)
      → IsSorted owner_of (nominating s.nominators owner)
      → AllExact s.nominators
      → amount_for validator (nominating s.nominators owner) ≡ some a
      → Dropped validator owner s (drop_nomination validator owner s)
  unfolding drop_nomination find
  drop_nomination-Dropped validator owner a s sorted h nominates =
      elim (Option-cases (Map.lookup owner s.nominators)) [
        | inl e ↦ absurd (ground arith)
        | inr (n, e) ↦
            let own : nominating s.nominators owner ≡ n.nominations = ap nominations_in e in
            let ns = subst (IsSorted owner_of) own sorted in
            let nom : amount_for validator n.nominations ≡ some a =
              ap (amount_for validator) (sym own) ∙ nominates in
            let exact = reduced-IsExact validator a n ns nom (h owner n e) in
            let rm = rm_nomination-reduced validator a n ns nom in
            let altered = from_without-Alters validator n.nominations in
            elim (Bool-cases (sub_u128 n.total a == 0)) [
              | inl z ↦
                  rw (drop_nomination, e, ap (λ p. p.1) rm, z)
                    (remove-Dropped validator owner s h (
                      rw own (
                        subst (Alters validator none n.nominations)
                          (sum_empty _ exact.positive (sym exact.exact ∙ ground arith)) altered)))
              | inr z ↦
                  rw (drop_nomination, e, ap (λ p. p.1) rm, z, ap (λ p. p.0) rm)
                    (put-Dropped validator owner s (reduced validator a n) h exact (rw own altered))
            ]
      ]
