-- ===== src/Stake/Limits/Switch.antt =====
-- `switch_nomination` of pallets/stake/src/lib.rs and the number of nominators of a candidate.
use moonbeam.Base.{
  ℕ, suc, ap, ◌≡◌, ◌≢◌, refl, Option, none, some, List, true, false, arith, ◌==◌, length, insert_at,
  Bool,
}
use moonbeam.Base.Map
use moonbeam.Base.Map.{lookup-insert}
use moonbeam.OrderedSet
use moonbeam.OrderedSet.{IsSorted, find}
use moonbeam.OrderedSet.Laws.{insert_reports}
use moonbeam.Stake.Types.{owner_of, Validator as Candidate, Nominator as Nominations}
use moonbeam.Stake.Validator
use moonbeam.Stake.Nominator
use moonbeam.Stake.Nominator.{last_amount}
use moonbeam.Stake.Storage.{
  State, ok, gets, ok_or, modify, ensure, ensure_signed, deposit_event, ◌>>=◌, ◌>>◌,
}
use moonbeam.Stake.NominatorCalls.{receive_nomination, switch_nomination}
use moonbeam.Stake.Limits.Lengths.{length-insert_at}

module _ {A : Type 0} (key : A → ℕ) where
  length-insert :
      (v : A) (xs : List A)
      → (OrderedSet.insert key v xs).1 ≡ true
      → length (OrderedSet.insert key v xs).0 ≡ suc (length xs)
  unfolding OrderedSet.insert
  length-insert v xs h = go (OrderedSet.binary_search key (key v) xs) h
    where
      go :
          (r : OrderedSet.SearchResult)
          → (elim r as (λ _. List A × Bool) [
            | OrderedSet.found loc ↦ (xs, false)
            | OrderedSet.vacant loc ↦ (insert_at loc v xs, true)
          ]).1
            ≡ true
          → length
              (elim r as (λ _. List A × Bool) [
                | OrderedSet.found loc ↦ (xs, false)
                | OrderedSet.vacant loc ↦ (insert_at loc v xs, true)
              ]).0
            ≡ suc (length xs)
      go (OrderedSet.found loc) e = cc
      go (OrderedSet.vacant loc) e = length-insert_at key loc v xs

length-add_nominator :
    (acc amount : ℕ) (w : Candidate)
    → IsSorted owner_of w.nominators
    → find owner_of acc w.nominators ≡ none
    → length (Validator.add_nominator acc amount w).0.nominators ≡ suc (length w.nominators)
unfolding Validator.add_nominator
length-add_nominator acc amount w sorted absent = length-insert owner_of _ w.nominators (
    ground (
      arith,
      insert_reports owner_of (record { owner = acc; amount = amount }) w.nominators sorted,
    ))

swap_nomination_fresh :
    (old new a : ℕ) (n : Nominations)
    → last_amount old none n.nominations ≡ some a
    → last_amount new none n.nominations ≡ none
    → (Nominator.swap_nomination old new n).1 ≡ some (a, a)
unfolding Nominator.swap_nomination Nominator.swap_into
swap_nomination_fresh old new a n h k =
    rw (Nominator.swap_nomination, h, Nominator.swap_into, k) refl

receive_nomination_fresh :
    (acc a : ℕ) (w : Candidate) → receive_nomination acc a a w ≡ Validator.add_nominator acc a w
unfolding receive_nomination
receive_nomination_fresh acc a w = ground arith

-- The number of nominators of a candidate that may be missing.
abbrev pub nominator_count : Option Candidate → Option ℕ
nominator_count none = none
nominator_count (some c) = some (length c.nominators)

-- A nominator of one candidate but not of another, which does not list the nominator either, can
-- switch to it however many nominators it has already: `switch_nomination` returns ok and the new candidate has
-- one nominator more.
pub switch_nomination-count :
    {L : Type 0} (s : State L) (acc old new a : ℕ) (n : Nominations) (v w : Candidate)
    → old ≢ new
    → Map.lookup acc s.nominators ≡ some n
    → Map.lookup old s.candidates ≡ some v
    → Map.lookup new s.candidates ≡ some w
    → last_amount old none n.nominations ≡ some a
    → last_amount new none n.nominations ≡ none
    → IsSorted owner_of w.nominators
    → find owner_of acc w.nominators ≡ none
    → let (r, t) = switch_nomination (some acc) old new s in
      (r ≡ ok tt)
      × (nominator_count (Map.lookup new t.candidates) ≡ some (suc (length w.nominators)))
unfolding switch_nomination ◌>>=◌ ◌>>◌ gets ok_or modify ensure ensure_signed deposit_event
switch_nomination-count s acc old new a n v w other has_n has_v has_w nominates fresh sorted
      absent =
    let differ : (old == new) ≡ false = ground arith in
    let same : (new == new) ≡ true = ground arith in
    rw
      (
        differ,
        has_n,
        has_v,
        has_w,
        swap_nomination_fresh old new a n nominates fresh,
        receive_nomination_fresh acc a w,
        lookup-insert new new (Validator.add_nominator acc a w).0
            (Map.insert old (Validator.rm_nominator acc v).0 s.candidates),
        same,
      )
      (refl, ap some (length-add_nominator acc a w sorted absent))
