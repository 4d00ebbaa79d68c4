-- ===== src/Stake/Validator/Arithmetic.antt =====
-- The arithmetic of totals in pallets/stake/src/lib.rs, modulo the size of the word.
use moonbeam.Base.{
  ℕ, ◌+◌, ◌%◌, ◌^◌, ◌<◌, ◌≡◌, refl, false, List, [], ◌∷◌, arith, add_u128, sub_u128,
}
use moonbeam.Stake.Types.{Bond}
use moonbeam.Stake.Validator.{lists}
use moonbeam.Stake.Validator.Bonds.{amount_of}

pub total-more : (t b s x : ℕ) → t ≡ (b + s) % 2 ^ 128 → add_u128 t x ≡ (b + (s + x)) % 2 ^ 128
unfolding add_u128
total-more t b s x h = omega arith

pub total-less :
    (t b s r x : ℕ)
    → t ≡ (b + s) % 2 ^ 128
    → r + x ≡ s
    → x < 2 ^ 128
    → sub_u128 t x ≡ (b + r) % 2 ^ 128
unfolding sub_u128
total-less t b s r x h e p = omega arith

pub total-bond_less :
    (t b s x : ℕ)
    → t ≡ (b + s) % 2 ^ 128
    → x < b
    → b < 2 ^ 128
    → sub_u128 t x ≡ (sub_u128 b x + s) % 2 ^ 128
unfolding sub_u128
total-bond_less t b s x h lt p = omega arith

pub total-update :
    (t b s r x a : ℕ)
    → t ≡ (b + s) % 2 ^ 128
    → r + x ≡ s + a
    → x < 2 ^ 128
    → add_u128 t (sub_u128 a x) ≡ (b + r) % 2 ^ 128
unfolding add_u128 sub_u128
total-update t b s r x a h e p = omega arith

pub total-inc :
    (t b s r x m : ℕ)
    → t ≡ (b + s) % 2 ^ 128
    → r + x ≡ s + add_u128 x m
    → add_u128 t m ≡ (b + r) % 2 ^ 128
unfolding add_u128
total-inc t b s r x m h e = omega arith

pub total-dec :
    (t b s r x l : ℕ)
    → t ≡ (b + s) % 2 ^ 128
    → r + x ≡ s + sub_u128 x l
    → l < 2 ^ 128
    → sub_u128 t l ≡ (b + r) % 2 ^ 128
unfolding sub_u128
total-dec t b s r x l h e p = omega arith

pub amount_of-absent : (k : ℕ) (xs : List Bond) → lists k xs ≡ false → amount_of k xs ≡ 0
unfolding lists amount_of
amount_of-absent k [] h = refl
amount_of-absent k (x ∷ xs) h = ground (arith, amount_of-absent k xs)

pub add_lt : (a b : ℕ) → add_u128 a b < 2 ^ 128
unfolding add_u128
add_lt a b = omega arith

pub sub_lt : (a b : ℕ) → sub_u128 a b < 2 ^ 128
unfolding sub_u128
sub_lt a b = omega arith
