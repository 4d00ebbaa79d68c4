-- ===== src/Stake/Nominator/Histories.antt =====
-- A nominator through any sequence of the methods of `impl Nominator` in pallets/stake/src/lib.rs.
use moonbeam.Base.{ℕ, ◌^◌, ◌<◌, ◌≡◌, false, List, [], ◌∷◌, arith}
use moonbeam.OrderedSet
use moonbeam.Stake.Types.{Bond, Nominator}
use moonbeam.Stake.Validator.{lists}
use moonbeam.Stake.Validator.Bonds.{sum, BondFits}
use moonbeam.Stake.Nominator.{
  new, add_nomination, rm_nomination, swap_nomination, inc_nomination, dec_nomination,
}
use moonbeam.Stake.Nominator.Totals.{
  IsBalanced, add_nomination-IsBalanced, rm_nomination-IsBalanced, inc_nomination-IsBalanced,
  dec_nomination-IsBalanced, swap_nomination-IsBalanced,
}

pub data Change : Type 0 where
  nominated : Bond → Change
  revoked : ℕ → Change
  increased decreased : ℕ → ℕ → Change
  switched : ℕ → ℕ → Change

unfoldable pub change : Change → Nominator → Nominator
change (nominated bond) n = (add_nomination bond n).0
change (revoked validator) n = (rm_nomination validator n).0
change (increased validator more) n = (inc_nomination validator more n).0
change (decreased validator less) n = (dec_nomination validator less n).0
change (switched old new) n = (swap_nomination old new n).0

-- Amounts are `u128`, and a switch goes to a validator that is not nominated yet.
abbrev pub Allowed : Change → Nominator → Type 0
Allowed (nominated bond) n = BondFits bond
Allowed (revoked validator) n = Unit
Allowed (increased validator more) n = more < 2 ^ 128
Allowed (decreased validator less) n = less < 2 ^ 128
Allowed (switched old new) n = lists new n.nominations ≡ false

unfoldable pub change_all : List Change → Nominator → Nominator
unfolding change
change_all [] n = n
change_all (c ∷ cs) n = change_all cs (change c n)

abbrev pub AllAllowed : List Change → Nominator → Type 0
AllAllowed [] n = Unit
AllAllowed (c ∷ cs) n = Allowed c n × AllAllowed cs (change c n)

change-IsBalanced :
    (c : Change) (n : Nominator) → Allowed c n → IsBalanced n → IsBalanced (change c n)
unfolding change
change-IsBalanced (nominated bond) n p h = add_nomination-IsBalanced n h bond p
change-IsBalanced (revoked validator) n p h = rm_nomination-IsBalanced n h validator
change-IsBalanced (increased validator more) n p h = inc_nomination-IsBalanced n h validator more p
change-IsBalanced (decreased validator less) n p h = dec_nomination-IsBalanced n h validator less p
change-IsBalanced (switched old new) n p h = swap_nomination-IsBalanced n h old new p

change_all-IsBalanced :
    (cs : List Change) (n : Nominator)
    → AllAllowed cs n
    → IsBalanced n
    → IsBalanced (change_all cs n)
unfolding change_all
change_all-IsBalanced [] n p h = h
change_all-IsBalanced (c ∷ cs) n p h =
    change_all-IsBalanced cs (change c n) p.1 (change-IsBalanced c n p.0 h)

new-IsBalanced :
    (validator nomination : ℕ) → nomination < 2 ^ 128 → IsBalanced (new validator nomination)
unfolding new sum OrderedSet.from OrderedSet.sort OrderedSet.sort_insert OrderedSet.dedup
    OrderedSet.dedup_after
new-IsBalanced validator nomination p = record {
  bonds = record { sorted = tt; fits = (p, tt) };
  balanced = omega arith;
}

-- From `Nominator::new` on, through any sequence of the methods of `Nominator` with amounts of `u128`, in
-- which every switch goes to a validator that is not nominated yet: the nominations stay an ordered
-- set, and the total is their sum, modulo 2 ^ 128.
pub change_all-new :
    (cs : List Change) (validator nomination : ℕ)
    → nomination < 2 ^ 128
    → AllAllowed cs (new validator nomination)
    → IsBalanced (change_all cs (new validator nomination))
change_all-new cs validator nomination p allowed =
    change_all-IsBalanced cs (new validator nomination) allowed
      (new-IsBalanced validator nomination p)
