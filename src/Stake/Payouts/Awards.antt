-- ===== src/Stake/Payouts/Awards.antt =====
-- What `note_author` of pallets/stake/src/lib.rs awards.
use moonbeam.Base.{false, refl, ℕ, ◌≡◌, ◌∙◌, ap, add_u32, unwrap_or, some, arith, ◌==◌}
use moonbeam.Base.Map.{lookup, insert, lookup-insert}
use moonbeam.Stake.Storage.{State}
use moonbeam.Stake.Payouts.{note_author, set_at}
use moonbeam.Stake.Payouts.Frame.{SameStakes, note_author-SameStakes}

-- An author awarded 20 points in the current round, wrapping as `u32`, with everything else of the
-- pallet as it was: the points of other rounds and other accounts, the snapshots, ledger and events.
pub record Awarded {L : Type 0} (author : ℕ) (s t : State L) : Type 0 where
  pub stakes : SameStakes s t
  pub points : t.points s.round ≡ add_u32 (s.points s.round) 20
  pub awarded :
      lookup author (t.awarded_pts s.round)
      ≡ some (add_u32 (unwrap_or (lookup author (s.awarded_pts s.round)) 0) 20)
  pub others :
      (j : ℕ)
      → (author == j) ≡ false
      → lookup j (t.awarded_pts s.round) ≡ lookup j (s.awarded_pts s.round)
  pub other_points : (r : ℕ) → (s.round == r) ≡ false → t.points r ≡ s.points r
  pub other_awards : (r : ℕ) → (s.round == r) ≡ false → t.awarded_pts r ≡ s.awarded_pts r
  pub snapshots : t.at_stake ≡ s.at_stake
  pub balances : t.ledger ≡ s.ledger
  pub deposited : t.events ≡ s.events

set_at-same {ℓ} : {V : Type ℓ} (k : ℕ) (v : V) (f : ℕ → V) → set_at k v f k ≡ v
set_at-same k v f = ground arith

set_at-other {ℓ} :
    {V : Type ℓ} (k r : ℕ) (v : V) (f : ℕ → V) → (k == r) ≡ false → set_at k v f r ≡ f r
set_at-other k r v f other = ground arith

-- `note_author` awards the author 20 points in the current round, adds 20 to the round's points, both
-- wrapping, and changes nothing else.
pub note_author-Awarded :
    {L : Type 0} (author : ℕ) (s : State L) → Awarded author s (note_author author s)
unfolding note_author
note_author-Awarded author s =
    let pts = s.awarded_pts s.round in
    let score = add_u32 (unwrap_or (lookup author pts) 0) 20 in
    let put = set_at-same s.round (insert author score pts) s.awarded_pts in
    record {
      stakes = note_author-SameStakes author s;
      points = ground arith;
      awarded = ap (lookup author) put ∙ ground (arith, lookup-insert author author score pts);
      others = λ j other. ap (lookup j) put ∙ ground (arith, lookup-insert author j score pts);
      other_points = λ r other. set_at-other s.round r _ s.points other;
      other_awards = λ r other. set_at-other s.round r _ s.awarded_pts other;
      snapshots = refl;
      balances = refl;
      deposited = refl;
    }
