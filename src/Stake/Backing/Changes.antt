-- ===== src/Stake/Backing/Changes.antt =====
-- The ways in which the calls write the stakes together with the reserved balances.
use moonbeam.Base.{ℕ, ◌+◌, ◌≡◌, refl, List, [], some, arith, ◌==◌, if◌then◌else◌}
use moonbeam.Base.Map
use moonbeam.Base.Map.{Map, lookup-insert, lookup-remove}
use moonbeam.Stake.Types.{Bond, Validator, Nominator as Nominations}
use moonbeam.Stake.Validator.Bonds.{sum}
use moonbeam.Stake.Sides.{nominating, with_bonds}
use moonbeam.Stake.Sides.Changes.{nominating-insert, nominating-remove}
use moonbeam.Stake.Backing.{Backed, bonded}

module _ {m : Map Validator} {g : ℕ → List Bond} {r : ℕ → ℕ} (h : Backed m g r) where
  pub Backed-ext :
      {g' : ℕ → List Bond} {r' : ℕ → ℕ}
      → ((a : ℕ) → g' a ≡ g a)
      → ((a : ℕ) → r' a ≡ r a)
      → Backed m g' r'
  Backed-ext p q = record { ids = h.ids; backed = λ a. rw (p a, q a) (h.backed a) }

  -- A candidate with a new bond.
  pub put_candidate-Backed :
      (c : ℕ) (v : Validator) {r' : ℕ → ℕ}
      → v.id ≡ c
      → ((a : ℕ) → r' a ≡ (if c == a then v.bond + sum (g c) else r a))
      → Backed (Map.insert c v m) g r'
  put_candidate-Backed c v e q = record {
    ids = λ d w found. ground (arith, lookup-insert c d v m, h.ids d w);
    backed = λ a. ground (arith, q a, lookup-insert c a v m, h.backed a);
  }

  -- A candidate that keeps its bond.
  pub keep_candidate-Backed :
      (c : ℕ) (u v : Validator)
      → Map.lookup c m ≡ some u
      → v.id ≡ u.id
      → v.bond ≡ u.bond
      → Backed (Map.insert c v m) g r
  keep_candidate-Backed c u v found e b =
      put_candidate-Backed c v (ground (arith, h.ids c u)) (λ a. ground (arith, h.backed a))

  pub remove_candidate-Backed :
      (c : ℕ) {r' : ℕ → ℕ}
      → ((a : ℕ) → r' a ≡ (if c == a then sum (g c) else r a))
      → Backed (Map.remove c m) g r'
  remove_candidate-Backed c q = record {
    ids = λ d w found. ground (arith, lookup-remove c d m, h.ids d w);
    backed = λ a. ground (arith, q a, lookup-remove c a m, h.backed a);
  }

  -- New nominations of an account.
  pub put_bonds-Backed :
      (acc : ℕ) (ys : List Bond) {r' : ℕ → ℕ}
      → ((a : ℕ) → r' a ≡ (if acc == a then bonded m acc + sum ys else r a))
      → Backed m (with_bonds acc ys g) r'
  put_bonds-Backed acc ys q = record { ids = h.ids; backed = λ a. ground (arith, q a, h.backed a) }

module _ {m : Map Validator} {r : ℕ → ℕ} (n : Map Nominations) where
  pub put_nominator-Backed :
      (a : ℕ) (v : Nominations)
      → Backed m (with_bonds a v.nominations (nominating n)) r
      → Backed m (nominating (Map.insert a v n)) r
  put_nominator-Backed a v h = Backed-ext h (nominating-insert a v n) (λ b. refl)

  pub remove_nominator-Backed :
      (a : ℕ)
      → Backed m (with_bonds a [] (nominating n)) r
      → Backed m (nominating (Map.remove a n)) r
  remove_nominator-Backed a h = Backed-ext h (nominating-remove a n) (λ b. refl)
