-- ===== src/Stake/Backing/Methods.antt =====
-- The methods of `impl Nominator` in pallets/stake/src/lib.rs on nominators with exact totals.
use moonbeam.Base.{
  ℕ, ◌+◌, ◌-◌, ◌≤◌, ◌<◌, ◌^◌, ◌≡◌, sym, ap, ◌∙◌, true, some, [], arith, add_u128, sub_u128,
  add_u128_exact, sub_u128_exact, Option-cases, inl, inr,
}
use moonbeam.OrderedSet
use moonbeam.OrderedSet.{IsSorted, find}
use moonbeam.Stake.Types.{Bond, owner_of, Nominator as Nominations}
use moonbeam.Stake.Validator.Bonds.{sum}
use moonbeam.Stake.Nominator
use moonbeam.Stake.Nominator.{first_amount, last_amount}
use moonbeam.Stake.Sides.{amount_for}
use moonbeam.Stake.Sides.Amounts.{first_amount-amount_for, insert-absent}
use moonbeam.Stake.Sides.Methods.{
  new-Alters, add_nomination-Alters, inc_nomination-Alters, dec_nomination-Alters,
}
use moonbeam.Stake.Sides.Exits.{IsExact}
use moonbeam.Stake.Backing.Sums.{or_zero, sum-Alters, IsPositive-Alters, amount_for-le, positive_at}

-- The nominator is exact, and its nominations have the sum.
abbrev pub ExactAt : ℕ → Nominations → Type 0
ExactAt total n = IsExact n × (sum n.nominations ≡ total)

pub new-ExactAt :
    (v amount : ℕ) → amount < 2 ^ 128 → 0 < amount → ExactAt amount (Nominator.new v amount)
unfolding Nominator.new sum find
new-ExactAt v amount fits positive =
    let h = new-Alters v amount in
    let sums : sum (Nominator.new v amount).nominations ≡ amount =
      omega (arith, sum-Alters v (some amount) [] _ tt h) in
    (
      record {
        exact = sym sums;
        fits = fits;
        positive = IsPositive-Alters v (some amount) [] _ tt h (λ a e. ground arith);
      },
      sums,
    )

module _ (n : Nominations) (s : IsSorted owner_of n.nominations) (e : IsExact n) where
  pub add_nomination-ExactAt :
      (v amount : ℕ)
      → let b : Bond = record { owner = v; amount = amount } in
        (Nominator.add_nomination b n).1 ≡ true
        → sum n.nominations + amount < 2 ^ 128
        → 0 < amount
        → ExactAt (sum n.nominations + amount) (Nominator.add_nomination b n).0
  unfolding Nominator.add_nomination
  add_nomination-ExactAt v amount added fits positive =
      let b : Bond = record { owner = v; amount = amount } in
      let h = add_nomination-Alters n s b added in
      let put : (OrderedSet.insert owner_of b n.nominations).1 ≡ true = ground arith in
      let vacant : or_zero (amount_for v n.nominations) ≡ 0 =
        ap or_zero (insert-absent n.nominations s b put) in
      let sums : sum (Nominator.add_nomination b n).0.nominations ≡ sum n.nominations + amount =
        omega (arith, sum-Alters v (some amount) n.nominations _ s h, vacant) in
      let total : (Nominator.add_nomination b n).0.total ≡ add_u128 n.total amount = ground arith in
      let whole = add_u128_exact n.total amount (omega (arith, fits, e.exact)) in
      (
        record {
          exact = omega (arith, total, whole, sums, e.exact);
          fits = omega (arith, total, whole, fits, e.exact);
          positive =
              IsPositive-Alters v (some amount) n.nominations _ e.positive h (λ a q. ground arith);
        },
        sums,
      )

  pub inc_nomination-ExactAt :
      (v more r : ℕ)
      → (Nominator.inc_nomination v more n).1 ≡ some r
      → sum n.nominations + more < 2 ^ 128
      → ExactAt (sum n.nominations + more) (Nominator.inc_nomination v more n).0
  unfolding Nominator.inc_nomination
  inc_nomination-ExactAt v more r increased fits =
      elim (Option-cases (first_amount v n.nominations)) [
        | inl none_there ↦ absurd (ground arith)
        | inr (a, there) ↦
            let h = inc_nomination-Alters n s v more r increased in
            let own : amount_for v n.nominations ≡ some a =
              sym (first_amount-amount_for v n.nominations) ∙ there in
            let below = amount_for-le v a n.nominations own in
            let grown = add_u128_exact a more (omega (arith, below, fits)) in
            let whole = add_u128_exact n.total more (omega (arith, fits, e.exact)) in
            let sums : sum (Nominator.inc_nomination v more n).0.nominations
                ≡ sum n.nominations + more =
              ground (arith, sum-Alters v _ n.nominations _ s h, own, grown) in
            let total : (Nominator.inc_nomination v more n).0.total ≡ add_u128 n.total more =
              ground arith in
            (
              record {
                exact = omega (arith, total, whole, sums, e.exact);
                fits = omega (arith, total, whole, fits, e.exact);
                positive = IsPositive-Alters v _ n.nominations _ e.positive h (λ a' q.
                    ground (arith, own, grown, positive_at v a n.nominations e.positive own, q));
              },
              sums,
            )
      ]

  pub dec_nomination-ExactAt :
      (v less r : ℕ)
      → (Nominator.dec_nomination v less n).1 ≡ some (some r)
      → ExactAt (sum n.nominations - less) (Nominator.dec_nomination v less n).0
        × (less ≤ sum n.nominations)
  unfolding Nominator.dec_nomination
  dec_nomination-ExactAt v less r decreased = elim (Option-cases (first_amount v n.nominations)) [
    | inl none_there ↦ absurd (ground arith)
    | inr (a, there) ↦
        let h = dec_nomination-Alters n s v less r decreased in
        let own : amount_for v n.nominations ≡ some a =
          sym (first_amount-amount_for v n.nominations) ∙ there in
        let below = amount_for-le v a n.nominations own in
        let lt : less < a = ground arith in
        let a_fits : a < 2 ^ 128 = omega (arith, below, e.exact, e.fits) in
        let shrunk = sub_u128_exact a less (omega (arith, lt)) a_fits in
        let whole = sub_u128_exact n.total less (omega (arith, lt, below, e.exact)) e.fits in
        let sums : sum (Nominator.dec_nomination v less n).0.nominations
            ≡ sum n.nominations - less =
          ground (arith, sum-Alters v _ n.nominations _ s h, own, shrunk, lt, below) in
        let total : (Nominator.dec_nomination v less n).0.total ≡ sub_u128 n.total less =
          ground arith in
        (
          (
            record {
              exact = omega (arith, total, whole, sums, e.exact);
              fits = omega (arith, total, whole, e.fits);
              positive =
                  IsPositive-Alters v _ n.nominations _ e.positive h
                    (λ a' q. ground (arith, own, shrunk, lt, q));
            },
            sums,
          ),
          omega (arith, lt, below),
        )
  ]
