-- ===== src/Stake/Rounds/Selection.antt =====
-- The choice of the validators of a round.
use mathlib.Core.List.{
  reverse, Mem, Perm, Pairwise, Pairwise-reverse, Pairwise-append, mem-append_left, not-mem-nil,
  eq-or-mem_of_mem-cons, reverse_perm, exists_of_mem-map,
}
use mathlib.Core.List.Perm
use mathlib.Core.Logic.Or
use mathlib.Core.Path.{subst}
use mathlib.Core.Logic.{∥∥₁_elim}
use mathlib.Core.Bool.{Bool-set}
use native.Mathlib.Bridge.{le_prop}
use moonbeam.Base.{
  ℕ, zero, suc, ◌≤◌, ◌≡◌, refl, sym, ap, ◌⊎◌, inl, inr, List, [], ◌∷◌, ◌++◌, map, true, arith,
  is_some, length, take,
}
use moonbeam.OrderedSet.{find}
use moonbeam.Stake.Types.{Bond, owner_of}
use moonbeam.Stake.Storage.{Config}
use moonbeam.Stake.Rounds.{select}

-- What the standard library promises of `sort_unstable_by` on the amounts.
pub record SortsByAmount (sort : List Bond → List Bond) : Type 0 where
  pub permutes : (xs : List Bond) → Perm (sort xs) xs
  pub rising : (xs : List Bond) → Pairwise (λ a b. a.amount ≤ b.amount) (sort xs)

module _ {A : Type 0} where
  abbrev pub drop : ℕ → List A → List A
  drop zero xs = xs
  drop (suc n) [] = []
  drop (suc n) (x ∷ xs) = drop n xs

  take-append-drop : (n : ℕ) (xs : List A) → take n xs ++ drop n xs ≡ xs
  take-append-drop zero xs = refl
  take-append-drop (suc n) [] = refl
  take-append-drop (suc n) (x ∷ xs) = ap (◌∷◌ x) (take-append-drop n xs)

  drop-cases : (n : ℕ) (xs : List A) → (drop n xs ≡ []) ⊎ (length (take n xs) ≡ n)
  drop-cases zero xs = inr refl
  drop-cases (suc n) [] = inl refl
  drop-cases (suc n) (x ∷ xs) = elim (drop-cases n xs) [ inl e ↦ inl e | inr e ↦ inr (ap suc e) ]

  length-take-le : (n : ℕ) (xs : List A) → length (take n xs) ≤ n
  length-take-le zero xs = omega arith
  length-take-le (suc n) [] = omega arith
  length-take-le (suc n) (x ∷ xs) = omega (arith, length-take-le n xs)

-- The pool, split into the bonds that are chosen and the rest: no more than `n` are chosen, fewer
-- only when none is left out, and none that is left out has a higher amount.
pub record Best (n : ℕ) (pool chosen rest : List Bond) : Type 0 where
  pub splits : Perm (chosen ++ rest) pool
  pub bounded : length chosen ≤ n
  pub filled : (rest ≡ []) ⊎ (length chosen ≡ n)
  pub highest : (b : Bond) → Mem b chosen → (c : Bond) → Mem c rest → c.amount ≤ b.amount

find_mem : (pool : List Bond) (b : Bond) → Mem b pool → is_some (find owner_of b.owner pool) ≡ true
unfolding find
find_mem [] b m = absurd (not-mem-nil m)
find_mem (x ∷ xs) b m =
    Or.elim (Bool-set _ _) (eq-or-mem_of_mem-cons m) (λ e. ground arith)
      (λ later. ground (arith, find_mem xs b later))

module _ {L : Type 0} (cfg : Config L) where
  abbrev pub chosen : List Bond → List Bond
  chosen pool = take cfg.max_validators (reverse (cfg.sort_unstable_by_amount pool))

  abbrev pub left_out : List Bond → List Bond
  left_out pool = drop cfg.max_validators (reverse (cfg.sort_unstable_by_amount pool))

module _ {L : Type 0} (cfg : Config L) (sorts : SortsByAmount cfg.sort_unstable_by_amount) where
  -- The validators are the owners of the `max_validators` bonds with the highest amounts.
  pub select-Best :
      (pool : List Bond)
      → (select cfg pool ≡ map owner_of (chosen cfg pool))
        × Best cfg.max_validators pool (chosen cfg pool) (left_out cfg pool)
  unfolding select
  select-Best pool = (
    refl,
    record {
      splits =
          rw (take-append-drop cfg.max_validators (reverse (cfg.sort_unstable_by_amount pool)))
            (Perm.trans (reverse_perm (cfg.sort_unstable_by_amount pool)) (sorts.permutes pool));
      bounded = length-take-le _ _;
      filled = drop-cases _ _;
      highest =
          ((Pairwise-append (λ b c. le_prop) {l₁ = chosen cfg pool} {l₂ = left_out cfg pool}).0 (
            subst (Pairwise (λ b c. c.amount ≤ b.amount))
              (sym
                (take-append-drop cfg.max_validators (reverse (cfg.sort_unstable_by_amount pool))))
              ((Pairwise-reverse (λ b c. le_prop)).1 (sorts.rising pool)))).2;
    },
  )

  -- A selected account has a bond in the pool.
  pub select-find :
      (pool : List Bond) (a : ℕ) → Mem a (select cfg pool) → is_some (find owner_of a pool) ≡ true
  unfolding select
  select-find pool a m = ∥∥₁_elim (exists_of_mem-map m) (Bool-set _ _) λ (b, chosen_b, e).
      rw (← e) (
        find_mem pool b (
          (Perm.mem_iff (select-Best pool).1.splits).0
            (mem-append_left (left_out cfg pool) chosen_b)))
