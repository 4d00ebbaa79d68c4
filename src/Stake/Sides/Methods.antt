-- ===== src/Stake/Sides/Methods.antt =====
-- What the methods of `impl Validator` and `impl Nominator` in pallets/stake/src/lib.rs change of the
-- amounts in their lists of bonds.
use moonbeam.Base.{
  ℕ, ◌≡◌, true, false, none, some, List, [], ◌∷◌, arith, ltb, add_u128, sub_u128, Bool-cases,
  Option-cases, inl, inr,
}
use moonbeam.OrderedSet
use moonbeam.OrderedSet.{IsSorted, find}
use moonbeam.OrderedSet.Laws.{insert-IsSorted}
use moonbeam.OrderedSet.From.{from-IsSorted, find-from}
use moonbeam.Stake.Types.{Bond, owner_of, Validator as Candidate, Nominator as Nominations}
use moonbeam.Stake.Validator
use moonbeam.Stake.Validator.{without, change_first, lists}
use moonbeam.Stake.Validator.Bonds.{lists-find}
use moonbeam.Stake.Validator.Changes.{change_first-IsSorted}
use moonbeam.Stake.Nominator
use moonbeam.Stake.Nominator.{first_amount, last_amount}
use moonbeam.Stake.Sides.{amount_for, Alters}
use moonbeam.Stake.Sides.Amounts.{
  changed, amount_for-change_first, amount_for-insert, amount_for-without,
}

pub from_without-Alters :
    (k : ℕ) (xs : List Bond) → Alters k none xs (OrderedSet.from owner_of (without k xs))
from_without-Alters k xs = record {
  sorted = from-IsSorted owner_of (without k xs);
  amounts = λ j. amount_for-without k j xs;
}

module _ (xs : List Bond) (s : IsSorted owner_of xs) where
  pub insert-Alters :
      (b : Bond)
      → (OrderedSet.insert owner_of b xs).1 ≡ true
      → Alters b.owner (some b.amount) xs (OrderedSet.insert owner_of b xs).0
  insert-Alters b put = record {
    sorted = insert-IsSorted owner_of b xs s;
    amounts = λ j. amount_for-insert xs s b j put;
  }

  change_first-Alters :
      (k : ℕ) (f : ℕ → ℕ) → Alters k (changed f (amount_for k xs)) xs (change_first k f xs)
  change_first-Alters k f = record {
    sorted = change_first-IsSorted k f xs s;
    amounts = λ j. ground (arith, amount_for-change_first k j f xs);
  }

  -- An owner that is not listed, whose amount is changed.
  unlisted-Alters :
      (k : ℕ) (f : ℕ → ℕ) → lists k xs ≡ false → Alters k (changed f (amount_for k xs)) xs xs
  unlisted-Alters k f e = record { sorted = s; amounts = λ j. ground (arith, lists-find k xs) }

-- The methods of `Nominator`
pub new-Alters : (v amount : ℕ) → Alters v (some amount) [] (Nominator.new v amount).nominations
unfolding Nominator.new find
new-Alters v amount =
    let bonds = record { owner = v; amount = amount } ∷ [] in
    record {
      sorted = from-IsSorted owner_of bonds;
      amounts = λ j. ground (arith, find-from owner_of j bonds);
    }

module _ (n : Nominations) (s : IsSorted owner_of n.nominations) where
  pub add_nomination-Alters :
      (b : Bond)
      → (Nominator.add_nomination b n).1 ≡ true
      → Alters b.owner (some b.amount) n.nominations (Nominator.add_nomination b n).0.nominations
  unfolding Nominator.add_nomination
  add_nomination-Alters b added = elim (Bool-cases (OrderedSet.insert owner_of b n.nominations).1) [
    | inl e ↦ rw (Nominator.add_nomination, e) (insert-Alters n.nominations s b e)
    | inr e ↦ absurd (ground arith)
  ]

  pub rm_nomination-Alters :
      (v r : ℕ)
      → (Nominator.rm_nomination v n).1 ≡ some r
      → Alters v none n.nominations (Nominator.rm_nomination v n).0.nominations
  unfolding Nominator.rm_nomination
  rm_nomination-Alters v r removed = elim (Option-cases (last_amount v none n.nominations)) [
    | inl e ↦ absurd (ground arith)
    | inr (a, e) ↦ rw (Nominator.rm_nomination, e) (from_without-Alters v n.nominations)
  ]

  pub inc_nomination-Alters :
      (v more r : ℕ)
      → (Nominator.inc_nomination v more n).1 ≡ some r
      → Alters v
          (changed (λ a. add_u128 a more) (amount_for v n.nominations))
          n.nominations
          (Nominator.inc_nomination v more n).0.nominations
  unfolding Nominator.inc_nomination
  inc_nomination-Alters v more r increased = elim (Option-cases (first_amount v n.nominations)) [
    | inl e ↦ absurd (ground arith)
    | inr (a, e) ↦ rw (Nominator.inc_nomination, e) (change_first-Alters n.nominations s v _)
  ]

  pub dec_nomination-Alters :
      (v less r : ℕ)
      → (Nominator.dec_nomination v less n).1 ≡ some (some r)
      → Alters v
          (changed (λ a. sub_u128 a less) (amount_for v n.nominations))
          n.nominations
          (Nominator.dec_nomination v less n).0.nominations
  unfolding Nominator.dec_nomination
  dec_nomination-Alters v less r decreased = elim (Option-cases (first_amount v n.nominations)) [
    | inl e ↦ absurd (ground arith)
    | inr (a, e) ↦ elim (Bool-cases (ltb less a)) [
      | inl lt ↦ rw (Nominator.dec_nomination, e, lt) (change_first-Alters n.nominations s v _)
      | inr ge ↦ absurd (ground arith)
    ]
  ]

-- The methods of `Validator`
module _ (v : Candidate) (s : IsSorted owner_of v.nominators) where
  pub inc_nominator-Alters :
      (k more : ℕ)
      → Alters k
          (changed (λ a. add_u128 a more) (amount_for k v.nominators))
          v.nominators
          (Validator.inc_nominator k more v).nominators
  unfolding Validator.inc_nominator
  inc_nominator-Alters k more = elim (Bool-cases (lists k v.nominators)) [
    | inl e ↦ rw (Validator.inc_nominator, e) (change_first-Alters v.nominators s k _)
    | inr e ↦ rw (Validator.inc_nominator, e) (unlisted-Alters v.nominators s k _ e)
  ]

  pub dec_nominator-Alters :
      (k less : ℕ)
      → Alters k
          (changed (λ a. sub_u128 a less) (amount_for k v.nominators))
          v.nominators
          (Validator.dec_nominator k less v).nominators
  unfolding Validator.dec_nominator
  dec_nominator-Alters k less = elim (Bool-cases (lists k v.nominators)) [
    | inl e ↦ rw (Validator.dec_nominator, e) (change_first-Alters v.nominators s k _)
    | inr e ↦ rw (Validator.dec_nominator, e) (unlisted-Alters v.nominators s k _ e)
  ]
