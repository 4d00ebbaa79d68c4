-- ===== src/Stake/Limits/Lengths.antt =====
-- The lengths of nominations through the methods of `impl Nominator` in pallets/stake/src/lib.rs.
use moonbeam.Base.{
  ℕ, zero, suc, ◌≤◌, ◌<◌, ◌≡◌, refl, ap, ◌∙◌, Bool, none, some, List, [], ◌∷◌, arith, length, ltb,
  add_u128, true, false, insert_at, Bool-cases, inl, inr, Option-cases,
}
use moonbeam.Base.Map
use moonbeam.Base.Map.{Map, lookup-insert, lookup-remove}
use moonbeam.OrderedSet
use moonbeam.Stake.Types.{Bond, owner_of, Nominator as Nominations}
use moonbeam.Stake.Validator.{without, change_first}
use moonbeam.Stake.Nominator
use moonbeam.Stake.Nominator.{last_amount, first_amount}
use moonbeam.Stake.Limits.{IsLimited}

module _ {A : Type 0} (key : A → ℕ) where
  pub length-insert_at : (i : ℕ) (v : A) (xs : List A) → length (insert_at i v xs) ≡ suc (length xs)
  length-insert_at zero v xs = refl
  length-insert_at (suc i) v [] = refl
  length-insert_at (suc i) v (x ∷ xs) = ap suc (length-insert_at i v xs)

  pub length-insert-le :
      (v : A) (xs : List A) → length (OrderedSet.insert key v xs).0 ≤ suc (length xs)
  unfolding OrderedSet.insert
  length-insert-le v xs = go (OrderedSet.binary_search key (key v) xs)
    where
      go :
          (r : OrderedSet.SearchResult)
          → length
              (elim r as (λ _. List A × Bool) [
                | OrderedSet.found loc ↦ (xs, false)
                | OrderedSet.vacant loc ↦ (insert_at loc v xs, true)
              ]).0
            ≤ suc (length xs)
      go (OrderedSet.found loc) = omega arith
      go (OrderedSet.vacant loc) = omega (arith, length-insert_at loc v xs)

  length-sort_insert :
      (v : A) (xs : List A) → length (OrderedSet.sort_insert key v xs) ≡ suc (length xs)
  unfolding OrderedSet.sort_insert
  length-sort_insert v [] = refl
  length-sort_insert v (x ∷ xs) = ground (arith, length-sort_insert v xs)

  length-sort : (xs : List A) → length (OrderedSet.sort key xs) ≡ length xs
  unfolding OrderedSet.sort
  length-sort [] = refl
  length-sort (x ∷ xs) = length-sort_insert x (OrderedSet.sort key xs) ∙ ap suc (length-sort xs)

  length-dedup_after-le :
      (k : ℕ) (xs : List A) → length (OrderedSet.dedup_after key k xs) ≤ length xs
  unfolding OrderedSet.dedup_after
  length-dedup_after-le k [] = omega arith
  length-dedup_after-le k (x ∷ xs) = ground (arith, length-dedup_after-le (key x) xs)

  length-dedup-le : (xs : List A) → length (OrderedSet.dedup key xs) ≤ length xs
  unfolding OrderedSet.dedup
  length-dedup-le [] = omega arith
  length-dedup-le (x ∷ xs) = omega (arith, length-dedup_after-le (key x) xs)

  pub length-from-le : (xs : List A) → length (OrderedSet.from key xs) ≤ length xs
  unfolding OrderedSet.from
  length-from-le xs = omega (arith, length-dedup-le (OrderedSet.sort key xs), length-sort xs)

pub length-without-le : (k : ℕ) (xs : List Bond) → length (without k xs) ≤ length xs
unfolding without
length-without-le k [] = omega arith
length-without-le k (x ∷ xs) = ground (arith, length-without-le k xs)

length-without-lt :
    (k a : ℕ) (xs : List Bond) → last_amount k none xs ≡ some a → length (without k xs) < length xs
unfolding without last_amount
length-without-lt k a [] h = cc
length-without-lt k a (x ∷ xs) h = ground (arith, length-without-le k xs, length-without-lt k a xs)

pub length-change_first :
    (k : ℕ) (f : ℕ → ℕ) (xs : List Bond) → length (change_first k f xs) ≡ length xs
unfolding change_first
length-change_first k f [] = refl
length-change_first k f (x ∷ xs) = ground (arith, length-change_first k f xs)

-- The methods
pub length-new : (v a : ℕ) → length (Nominator.new v a).nominations ≤ 1
unfolding Nominator.new
length-new v a = omega (arith, length-from-le owner_of (record { owner = v; amount = a } ∷ []))

pub length-add_nomination-le :
    (b : Bond) (n : Nominations)
    → length (Nominator.add_nomination b n).0.nominations ≤ suc (length n.nominations)
unfolding Nominator.add_nomination
length-add_nomination-le b n = ground (arith, length-insert-le owner_of b n.nominations)

pub length-rm_nomination-le :
    (v : ℕ) (n : Nominations)
    → length (Nominator.rm_nomination v n).0.nominations ≤ length n.nominations
unfolding Nominator.rm_nomination
length-rm_nomination-le v n =
    ground
      (arith, length-from-le owner_of (without v n.nominations), length-without-le v n.nominations)

pub length-inc_nomination :
    (v more : ℕ) (n : Nominations)
    → length (Nominator.inc_nomination v more n).0.nominations ≡ length n.nominations
unfolding Nominator.inc_nomination
length-inc_nomination v more n = elim (Option-cases (first_amount v n.nominations)) [
  | inl e ↦ rw (Nominator.inc_nomination, e) refl
  | inr (a, e) ↦ rw (Nominator.inc_nomination, e) (length-change_first v _ n.nominations)
]

pub length-dec_nomination :
    (v less : ℕ) (n : Nominations)
    → length (Nominator.dec_nomination v less n).0.nominations ≡ length n.nominations
unfolding Nominator.dec_nomination
length-dec_nomination v less n = elim (Option-cases (first_amount v n.nominations)) [
  | inl e ↦ rw (Nominator.dec_nomination, e) refl
  | inr (a, e) ↦ elim (Bool-cases (ltb less a)) [
    | inl y ↦ rw (Nominator.dec_nomination, e, y) (length-change_first v _ n.nominations)
    | inr y ↦ rw (Nominator.dec_nomination, e, y) refl
  ]
]

length-swap_into-le :
    (old new amount a : ℕ) (xs : List Bond)
    → last_amount old none xs ≡ some a
    → length (Nominator.swap_into old new amount xs).0 ≤ length xs
unfolding Nominator.swap_into
length-swap_into-le old new amount a xs h = elim (Option-cases (last_amount new none xs)) [
  | inl e ↦
      rw (Nominator.swap_into, e)
        (omega (
          arith,
          length-insert-le owner_of (record { owner = new; amount = amount })
              (OrderedSet.from owner_of (without old xs)),
          length-from-le owner_of (without old xs),
          length-without-lt old a xs h,
        ))
  | inr (b, e) ↦
      rw (Nominator.swap_into, e)
        (omega (
          arith,
          length-insert-le owner_of (record { owner = new; amount = add_u128 b amount })
              (OrderedSet.from owner_of (without new xs)),
          length-from-le owner_of (without new xs),
          length-without-lt new b xs e,
        ))
]

pub length-swap_nomination-le :
    (old new : ℕ) (n : Nominations)
    → length (Nominator.swap_nomination old new n).0.nominations ≤ length n.nominations
unfolding Nominator.swap_nomination
length-swap_nomination-le old new n = elim (Option-cases (last_amount old none n.nominations)) [
  | inl e ↦ rw (Nominator.swap_nomination, e) (omega arith)
  | inr (a, e) ↦ rw (Nominator.swap_nomination, e) (length-swap_into-le old new a a n.nominations e)
]

module _ {max : ℕ} (m : Map Nominations) (h : IsLimited max m) where
  pub insert-IsLimited :
      (k : ℕ) (n : Nominations) → length n.nominations ≤ max → IsLimited max (Map.insert k n m)
  insert-IsLimited k n p a v e = ground (arith, lookup-insert k a n m, h a v)

  pub remove-IsLimited : (k : ℕ) → IsLimited max (Map.remove k m)
  remove-IsLimited k a v e = ground (arith, lookup-remove k a m, h a v)
