-- ===== src/Stake/Sides/Changes.antt =====
-- The ways in which the calls write `Candidates` and `Nominators` together.
use moonbeam.Base.{ℕ, ◌≡◌, refl, Option, some, List, [], arith}
use moonbeam.Base.Map
use moonbeam.Base.Map.{Map, lookup-insert, lookup-remove}
use moonbeam.OrderedSet.{IsSorted}
use moonbeam.Stake.Types.{Bond, owner_of, Validator, Nominator as Nominations}
use mathlib.Core.Path.{subst}
use moonbeam.Stake.Sides.{
  amount_for, bonds_in, IsMatched, Alters, Matched, listing, nominating, with_bonds, Matched-ext,
  Matched-both,
}
use moonbeam.Stake.Storage.{State}
use moonbeam.Stake.Limits.{nominations_in}

listing-insert :
    (c : ℕ) (v : Validator) (m : Map Validator) (d : ℕ)
    → listing (Map.insert c v m) d ≡ with_bonds c v.nominators (listing m) d
listing-insert c v m d = ground (arith, lookup-insert c d v m)

pub nominating-insert :
    (a : ℕ) (n : Nominations) (m : Map Nominations) (b : ℕ)
    → nominating (Map.insert a n m) b ≡ with_bonds a n.nominations (nominating m) b
nominating-insert a n m b = ground (arith, lookup-insert a b n m)

pub nominating-remove :
    (a : ℕ) (m : Map Nominations) (b : ℕ)
    → nominating (Map.remove a m) b ≡ with_bonds a [] (nominating m) b
nominating-remove a m b = ground (arith, lookup-remove a b m)

module _ (m : Map Validator) {g : ℕ → List Bond} (h : Matched (listing m) g) where
  -- A candidate whose list stays the same.
  pub put_candidate-Matched :
      (c : ℕ) (v : Validator) → v.nominators ≡ listing m c → Matched (listing (Map.insert c v m)) g
  put_candidate-Matched c v e =
      Matched-ext h (λ d. ground (arith, listing-insert c v m d)) (λ a. refl)

  -- A candidate whose list changes together with the nominations of one account.
  pub put_bond-Matched :
      (c a : ℕ) (u v : Validator) (zs ys : List Bond) (x : Option ℕ)
      → Map.lookup c m ≡ some u
      → g a ≡ zs
      → Alters a x u.nominators v.nominators
      → Alters c x zs ys
      → Matched (listing (Map.insert c v m)) (with_bonds a ys g)
  put_bond-Matched c a u v zs ys x found nominates p q =
      Matched-ext (Matched-both h c a v.nominators ys x (rw found p) (rw nominates q))
        (listing-insert c v m) (λ b. refl)

module _ {f : ℕ → List Bond} (n : Map Nominations) where
  pub put_nominator-Matched :
      (a : ℕ) (v : Nominations)
      → Matched f (with_bonds a v.nominations (nominating n))
      → Matched f (nominating (Map.insert a v n))
  put_nominator-Matched a v h = Matched-ext h (λ c. refl) (nominating-insert a v n)

  pub remove_nominator-Matched :
      (a : ℕ) → Matched f (with_bonds a [] (nominating n)) → Matched f (nominating (Map.remove a n))
  remove_nominator-Matched a h = Matched-ext h (λ c. refl) (nominating-remove a n)

module _ {L : Type 0} (s : State L) (h : IsMatched s) where
  pub found-IsSorted :
      (c : ℕ) (v : Validator) → Map.lookup c s.candidates ≡ some v → IsSorted owner_of v.nominators
  found-IsSorted c v found = subst (λ o. IsSorted owner_of (bonds_in o)) found (h.listing_sorted c)

  pub nominating-IsSorted :
      (a : ℕ) (v : Nominations)
      → Map.lookup a s.nominators ≡ some v
      → IsSorted owner_of v.nominations
  nominating-IsSorted a v found =
      subst (λ o. IsSorted owner_of (nominations_in o)) found (h.nominating_sorted a)

  pub found-same_amount :
      (c a : ℕ) (v : Validator) (w : Nominations)
      → Map.lookup c s.candidates ≡ some v
      → Map.lookup a s.nominators ≡ some w
      → amount_for a v.nominators ≡ amount_for c w.nominations
  found-same_amount c a v w p q = ground (arith, h.same_amount c a)
