-- ===== src/Stake/Sides.antt =====
-- The two sides of a nomination in pallets/stake/src/lib.rs: the bond that a candidate lists of a
-- nominator, and the nomination that the nominator has of the candidate.
pub mod Amounts
pub mod Methods
pub mod Changes
pub mod Candidates
pub mod Nominators
pub mod Leaving
pub mod Switching
pub mod Exits
pub mod Rounds
pub mod Histories
use moonbeam.Base.{ℕ, ◌≡◌, Option, none, some, List, [], arith, ◌==◌, if◌then◌else◌}
use moonbeam.Base.Map
use moonbeam.Base.Map.{Map}
use moonbeam.OrderedSet.{IsSorted, find}
use moonbeam.Stake.Types.{Bond, owner_of, Validator, Nominator as Nominations}
use moonbeam.Stake.Nominator.Swap.{amount_in}
use moonbeam.Stake.Storage.{State}
use moonbeam.Stake.Limits.{nominations_in}

-- The amount of the bond of an owner.
abbrev pub amount_for : ℕ → List Bond → Option ℕ
amount_for owner bonds = amount_in (find owner_of owner bonds)

-- The bonds of an entry of `Candidates` that may be missing.
abbrev pub bonds_in : Option Validator → List Bond
bonds_in none = []
bonds_in (some v) = v.nominators

-- The lists of the candidates and the nominations of the nominators are sets in order, and an amount
-- stands on both sides or on none.
pub record Matched (listing nominating : ℕ → List Bond) : Type 0 where
  pub listing_sorted : (c : ℕ) → IsSorted owner_of (listing c)
  pub nominating_sorted : (a : ℕ) → IsSorted owner_of (nominating a)
  pub same_amount : (c a : ℕ) → amount_for a (listing c) ≡ amount_for c (nominating a)

abbrev pub listing : Map Validator → ℕ → List Bond
listing candidates c = bonds_in (Map.lookup c candidates)

abbrev pub nominating : Map Nominations → ℕ → List Bond
nominating nominators a = nominations_in (Map.lookup a nominators)

-- The list `ys` is `xs` with the amount of one owner exchanged, which may be missing before or after.
pub record Alters (owner : ℕ) (amount : Option ℕ) (xs ys : List Bond) : Type 0 where
  pub sorted : IsSorted owner_of ys
  pub amounts : (j : ℕ) → amount_for j ys ≡ (if owner == j then amount else amount_for j xs)

-- The bonds of all accounts with those of one account exchanged.
abbrev pub with_bonds : ℕ → List Bond → (ℕ → List Bond) → ℕ → List Bond
with_bonds k xs f j = if k == j then xs else f j

-- The storage matches.
abbrev pub IsMatched : {L : Type 0} → State L → Type 0
IsMatched s = Matched (listing s.candidates) (nominating s.nominators)

module _ {f g : ℕ → List Bond} (h : Matched f g) where
  pub Matched-ext :
      {f' g' : ℕ → List Bond} → ((c : ℕ) → f' c ≡ f c) → ((a : ℕ) → g' a ≡ g a) → Matched f' g'
  Matched-ext p q = record {
    listing_sorted = λ c. rw (p c) (h.listing_sorted c);
    nominating_sorted = λ a. rw (q a) (h.nominating_sorted a);
    same_amount = λ c a. rw (p c, q a) (h.same_amount c a);
  }

  -- A nomination that changes on both sides.
  pub Matched-both :
      (c a : ℕ) (xs ys : List Bond) (x : Option ℕ)
      → Alters a x (f c) xs
      → Alters c x (g a) ys
      → Matched (with_bonds c xs f) (with_bonds a ys g)
  Matched-both c a xs ys x p q = record {
    listing_sorted = λ d. ground (arith, p.sorted, h.listing_sorted d);
    nominating_sorted = λ b. ground (arith, q.sorted, h.nominating_sorted b);
    same_amount = λ d b.
        ground (
          arith,
          p.amounts b,
          q.amounts d,
          h.same_amount d b,
          h.same_amount c b,
          h.same_amount d a,
        );
  }
