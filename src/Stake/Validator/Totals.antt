-- ===== src/Stake/Validator/Totals.antt =====
-- The total of a candidate is its bond with the bonds of its nominators, through every method of
-- `impl Validator` in pallets/stake/src/lib.rs.
use moonbeam.Base.{
  ℕ, ◌+◌, ◌%◌, ◌^◌, ◌<◌, ◌≡◌, refl, ap, ◌∙◌, Bool, true, false, List, [], ◌∷◌, arith, ltb,
  if◌then◌else◌, add_u128, sub_u128, ltb→lt, Bool-cases, inl, inr,
}
use moonbeam.Stake.Types.{Validator}
use moonbeam.Stake.Validator.{
  new, bond_more, bond_less, rm_nominator, add_nominator, update_nominator, inc_nominator,
  dec_nominator, lists,
}
use moonbeam.Stake.Validator.Bonds.{
  sum, amount_of, Bonds, insert-Bonds, without-Bonds, subtract_owned_lem, amount_of-fits,
}
use moonbeam.Stake.Validator.Changes.{with_amount-Bonds, last_difference_lem, change_first-Bonds}
use moonbeam.Stake.Validator.Arithmetic.{
  total-more, total-less, total-bond_less, total-update, total-inc, total-dec, amount_of-absent,
  add_lt, sub_lt,
}

-- The nominators are an ordered set, and the total is the sum of the stakes, as `u128` has it.
pub record IsBalanced (v : Validator) : Type 0 where
  pub bond_fits : v.bond < 2 ^ 128
  pub bonds : Bonds v.nominators
  pub balanced : v.total ≡ (v.bond + sum v.nominators) % 2 ^ 128

-- The methods that change stakes.
pub data Change : Type 0 where
  bonds_more bonds_less : ℕ → Change
  removed : ℕ → Change
  added updated increased decreased : ℕ → ℕ → Change

unfoldable pub apply : Change → Validator → Validator
unfolding bond_more bond_less rm_nominator add_nominator update_nominator inc_nominator
    dec_nominator
apply (bonds_more amount) v = bond_more amount v
apply (bonds_less amount) v = (bond_less amount v).0
apply (removed nominator) v = (rm_nominator nominator v).0
apply (added owner amount) v = (add_nominator owner amount v).0
apply (updated nominator amount) v = (update_nominator nominator amount v).0
apply (increased nominator more) v = inc_nominator nominator more v
apply (decreased nominator less) v = dec_nominator nominator less v

-- What callers see to: amounts are `u128`, and a nominator is added only where it is absent.
abbrev pub Allowed : Change → Validator → Type 0
Allowed (bonds_more amount) v = amount < 2 ^ 128
Allowed (bonds_less amount) v = amount < 2 ^ 128
Allowed (removed nominator) v = Unit
Allowed (added owner amount) v = (amount < 2 ^ 128) × (lists owner v.nominators ≡ false)
Allowed (updated nominator amount) v = amount < 2 ^ 128
Allowed (increased nominator more) v = more < 2 ^ 128
Allowed (decreased nominator less) v = less < 2 ^ 128

module _ (v : Validator) (h : IsBalanced v) where
  bond_more-IsBalanced : (more : ℕ) → more < 2 ^ 128 → IsBalanced (bond_more more v)
  unfolding bond_more add_u128
  bond_more-IsBalanced more p = record {
    bond_fits = omega arith;
    bonds = h.bonds;
    balanced = omega (arith, h.balanced);
  }

  bond_less-IsBalanced : (less : ℕ) → IsBalanced (bond_less less v).0
  unfolding bond_less sub_u128
  bond_less-IsBalanced less = elim (Bool-cases (ltb less v.bond)) [
    | inl e ↦ rw e (record {
      bond_fits = sub_lt v.bond less;
      bonds = h.bonds;
      balanced = total-bond_less _ _ _ less h.balanced (ltb→lt _ _ e) h.bond_fits;
    })
    | inr e ↦ rw e h
  ]

  rm_nominator-IsBalanced : (k : ℕ) → IsBalanced (rm_nominator k v).0
  unfolding rm_nominator
  rm_nominator-IsBalanced k =
      let (kept, less) = without-Bonds k v.nominators h.bonds in
      let x = amount_of k v.nominators in
      record {
        bond_fits = h.bond_fits;
        bonds = kept;
        balanced =
            rw (subtract_owned_lem k v.total v.nominators h.bonds.sorted)
              (elim (Bool-cases (lists k v.nominators)) [
                | inl e ↦ rw e (
                    total-less _ _ _ _ x h.balanced less
                      (amount_of-fits k v.nominators h.bonds.fits))
                | inr e ↦ rw e (
                    h.balanced
                    ∙ ap (λ r. (v.bond + r) % 2 ^ 128)
                        (omega (arith, less, amount_of-absent k v.nominators e)))
              ]);
      }

  add_nominator-IsBalanced :
      (k a : ℕ) → a < 2 ^ 128 → lists k v.nominators ≡ false → IsBalanced (add_nominator k a v).0
  unfolding add_nominator
  add_nominator-IsBalanced k a p absent =
      let (kept, more) =
        insert-Bonds (record { owner = k; amount = a }) v.nominators h.bonds p absent in
      record {
        bond_fits = h.bond_fits;
        bonds = kept;
        balanced = rw more (total-more _ _ _ a h.balanced);
      }

  update_nominator-IsBalanced : (k a : ℕ) → a < 2 ^ 128 → IsBalanced (update_nominator k a v).0
  unfolding update_nominator
  update_nominator-IsBalanced k a p =
      let (kept, changed) = with_amount-Bonds k a v.nominators p h.bonds in
      let x = amount_of k v.nominators in
      record {
        bond_fits = h.bond_fits;
        bonds = kept;
        balanced =
            rw (last_difference_lem k a 0 v.nominators h.bonds.sorted)
              (go (lists k v.nominators) refl _ changed);
      }
    where
      go :
          (b : Bool)
          → lists k v.nominators ≡ b
          → (r : ℕ) → r + amount_of k v.nominators ≡ sum v.nominators + (if b then a else 0)
          → add_u128 v.total (if b then sub_u128 a (amount_of k v.nominators) else 0)
            ≡ (v.bond + r) % 2 ^ 128
      go true e r changed =
          total-update _ _ _ _ _ a h.balanced changed (amount_of-fits k v.nominators h.bonds.fits)
      go false e r changed =
          total-more v.total v.bond (sum v.nominators) 0 h.balanced
          ∙ ap (λ q. (v.bond + q) % 2 ^ 128)
              (omega (arith, changed, amount_of-absent k v.nominators e))

  inc_nominator-IsBalanced : (k more : ℕ) → more < 2 ^ 128 → IsBalanced (inc_nominator k more v)
  unfolding inc_nominator
  inc_nominator-IsBalanced k more p =
      let (kept, changed) =
        change_first-Bonds k (λ a. add_u128 a more) v.nominators (λ a. add_lt a more) h.bonds in
      elim (Bool-cases (lists k v.nominators)) [
        | inl e ↦ rw e (record {
          bond_fits = h.bond_fits;
          bonds = kept;
          balanced = total-inc _ _ _ _ _ more h.balanced (rw e at changed);
        })
        | inr e ↦ rw e h
      ]

  dec_nominator-IsBalanced : (k less : ℕ) → less < 2 ^ 128 → IsBalanced (dec_nominator k less v)
  unfolding dec_nominator
  dec_nominator-IsBalanced k less p =
      let (kept, changed) =
        change_first-Bonds k (λ a. sub_u128 a less) v.nominators (λ a. sub_lt a less) h.bonds in
      elim (Bool-cases (lists k v.nominators)) [
        | inl e ↦ rw e (record {
          bond_fits = h.bond_fits;
          bonds = kept;
          balanced = total-dec _ _ _ _ _ less h.balanced (rw e at changed) p;
        })
        | inr e ↦ rw e h
      ]

apply-IsBalanced :
    (c : Change) (v : Validator) → Allowed c v → IsBalanced v → IsBalanced (apply c v)
unfolding apply
apply-IsBalanced (bonds_more amount) v p h = bond_more-IsBalanced v h amount p
apply-IsBalanced (bonds_less amount) v p h = bond_less-IsBalanced v h amount
apply-IsBalanced (removed k) v p h = rm_nominator-IsBalanced v h k
apply-IsBalanced (added k a) v p h = add_nominator-IsBalanced v h k a p.0 p.1
apply-IsBalanced (updated k a) v p h = update_nominator-IsBalanced v h k a p
apply-IsBalanced (increased k more) v p h = inc_nominator-IsBalanced v h k more p
apply-IsBalanced (decreased k less) v p h = dec_nominator-IsBalanced v h k less p

new-IsBalanced : (id fee bond : ℕ) → bond < 2 ^ 128 → IsBalanced (new id fee bond)
unfolding new sum
new-IsBalanced id fee bond p = record {
  bond_fits = p;
  bonds = record { sorted = tt; fits = tt };
  balanced = omega arith;
}

-- The changes of a candidate, one after the other.
unfoldable pub apply_all : List Change → Validator → Validator
unfolding apply
apply_all [] v = v
apply_all (c ∷ cs) v = apply_all cs (apply c v)

abbrev pub AllAllowed : List Change → Validator → Type 0
AllAllowed [] v = Unit
AllAllowed (c ∷ cs) v = Allowed c v × AllAllowed cs (apply c v)

apply_all-IsBalanced :
    (cs : List Change) (v : Validator)
    → AllAllowed cs v
    → IsBalanced v
    → IsBalanced (apply_all cs v)
unfolding apply_all
apply_all-IsBalanced [] v p h = h
apply_all-IsBalanced (c ∷ cs) v p h =
    apply_all-IsBalanced cs (apply c v) p.1 (apply-IsBalanced c v p.0 h)

-- From `Validator::new` on, through any sequence of the methods of `Validator` with amounts of `u128`, in
-- which a nominator is added only where it is absent: the nominators stay an ordered set, and the
-- total is the bond with the sum of their bonds, modulo 2 ^ 128.
pub apply_all-new :
    (cs : List Change) (id fee bond : ℕ)
    → bond < 2 ^ 128
    → AllAllowed cs (new id fee bond)
    → IsBalanced (apply_all cs (new id fee bond))
apply_all-new cs id fee bond p allowed =
    apply_all-IsBalanced cs (new id fee bond) allowed (new-IsBalanced id fee bond p)
